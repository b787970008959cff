-- ===== src/Tests.antt =====
-- Concrete runs of the definitions, and the properties at them.
mod Utils
mod Http
mod Video
mod Auth
mod ThreadPool
mod Server
mod Accounts
mod Library
mod Listen
mod Program
mod Media
