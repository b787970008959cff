-- ===== src/Auth.antt =====
-- server/src/auth.c: names, cookies, passwords, sessions and the handlers of accounts.
pub mod Names
pub mod Cookie
pub mod Session
pub mod Password
pub mod Login
pub mod Register
pub mod Preserves
