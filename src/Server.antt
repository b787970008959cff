-- ===== src/Server.antt =====
-- server/src/main.c: static files, the choice of directories and the table of routes.
pub mod Static
pub mod Routes
pub mod Loop
pub mod Handlers
pub mod Connection
pub mod Listen
pub mod Start
