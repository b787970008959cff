-- ===== src/Db.antt =====
-- server/schema.sql and server/src/db.c: users and sessions.
pub mod Tables
pub mod Library
pub mod Videos
pub mod Watching
pub mod Engine
pub mod Accounts
pub mod Open
