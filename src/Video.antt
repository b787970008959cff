-- ===== src/Video.antt =====
-- server/src/video.c: query parameters, ranges, resume positions and titles.
pub mod Query
pub mod Range
pub mod Resume
pub mod Titles
pub mod Sync
pub mod Watcher
pub mod Listing
pub mod Stream
