-- ===== src/Utils.antt =====
-- server/src/utils.c: the string builder, the JSON reader and writer, and base64url.
pub mod Builder
pub mod Json
pub mod Base64
pub mod Pieces
pub mod Files
