-- ===== src/Db/Tables.antt =====
-- server/schema.sql: the tables of accounts, as lists of rows in the order of their insertion, without
-- the columns `created_at`, which no query reads.
use ott_server.Base.{List, ℕ, ℤ}
use ott_server.Cstr.{Bytes}

-- users; username is UNIQUE, and ids fit an int.
pub record User : Type 0 where
  pub id : ℕ
  pub username : Bytes
  pub password_hash : Bytes
  pub salt : Bytes

-- sessions; token is the PRIMARY KEY, and user_id refers to users.
pub record Session : Type 0 where
  pub token : Bytes
  pub user_id : ℕ
  pub expires_at : ℤ

-- `next_user` is the counter behind AUTOINCREMENT.
pub record Tables : Type 0 where
  pub users : List User
  pub next_user : ℕ
  pub sessions : List Session
