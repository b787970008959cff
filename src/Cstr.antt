-- ===== src/Cstr.antt =====
-- The C library's string functions, as far as server/src uses them. A C string is the list of its
-- bytes before the terminating NUL.
mod Search
mod Number
unfoldable pub use Search.*
unfoldable pub use Number.*
