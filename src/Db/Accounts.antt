-- ===== src/Db/Accounts.antt =====
-- server/src/db.c: the functions on users and sessions, over any engine. The mutex makes each of
-- them one step.
pub mod Laws
use ott_server.Base.{
  Bool, Option, [], false, if◌then◌else◌, length, ltb, none, some, true, ℕ, ℤ, ◌>>=◌, ◌∷◌,
}
use ott_server.Cstr.{Bytes, truncated}
use ott_server.Db.Engine.{
  Answer, Sql, constraint, credentials_row, delete_session, done_at, insert_user, not_prepared,
  purge_sessions, select_credentials, select_session, select_username, session_row, upsert_session,
  upsert_user, username_row,
}

-- `copy_blob`: a value that is not empty and fits.
unfoldable pub copy_blob : Bytes → ℕ → Option Bytes
copy_blob [] dest_len = none
copy_blob (c ∷ blob) dest_len = if ltb dest_len (length (c ∷ blob)) then none else some (c ∷ blob)

-- What the functions return for an answer.
abbrev pub is_done : Answer → Bool
is_done (done_at _) = true
is_done _ = false

abbrev pub is_prepared : Answer → Bool
is_prepared not_prepared = false
is_prepared _ = true

-- 0 with the new id, SQLITE_CONSTRAINT, or -1.
pub data Created : Type 0 where
  created : ℕ → Created
  duplicate : Created
  not_created : Created

abbrev pub created_of : Answer → Created
created_of (done_at id) = created id
created_of constraint = duplicate
created_of _ = not_created

abbrev pub credentials_of : Answer → ℕ → ℕ → Option (ℕ × Bytes × Bytes)
credentials_of (credentials_row id hash salt) hash_len salt_len = do
  h ← copy_blob hash hash_len
  s ← copy_blob salt salt_len
  some (id, h, s)
credentials_of _ hash_len salt_len = none

abbrev pub username_of : Answer → ℕ → Option Bytes
username_of (username_row name) len = some (truncated len name)
username_of _ len = none

abbrev pub session_of : Answer → Option (ℕ × ℤ)
session_of (session_row id expires) = some (id, expires)
session_of _ = none

module _ {Conn : Type 0} (run : Conn → Sql → Conn × Answer) where
  unfoldable pub db_get_user_credentials : Conn → Bytes → ℕ → ℕ → Conn × Option (ℕ × Bytes × Bytes)
  unfolding copy_blob
  db_get_user_credentials db username hash_len salt_len =
      let (after, answer) = run db (select_credentials username) in
      (after, credentials_of answer hash_len salt_len)

  unfoldable pub db_upsert_user : Conn → Bytes → Bytes → Bytes → Conn × Bool
  db_upsert_user db username hash salt =
      let (after, answer) = run db (upsert_user username hash salt) in (after, is_done answer)

  unfoldable pub db_create_user : Conn → Bytes → Bytes → Bytes → Conn × Created
  db_create_user db username hash salt =
      let (after, answer) = run db (insert_user username hash salt) in (after, created_of answer)

  unfoldable pub db_create_session : Conn → Bytes → ℕ → ℤ → Conn × Bool
  db_create_session db token user_id expires_at =
      let (after, answer) = run db (upsert_session token user_id expires_at) in
      (after, is_done answer)

  unfoldable pub db_get_session : Conn → Bytes → Conn × Option (ℕ × ℤ)
  db_get_session db token =
      let (after, answer) = run db (select_session token) in (after, session_of answer)

  unfoldable pub db_delete_session : Conn → Bytes → Conn × Bool
  db_delete_session db token =
      let (after, answer) = run db (delete_session token) in (after, is_done answer)

  -- The result of its step is not looked at.
  unfoldable pub db_purge_expired_sessions : Conn → ℤ → Conn × Bool
  db_purge_expired_sessions db now =
      let (after, answer) = run db (purge_sessions now) in (after, is_prepared answer)

  unfoldable pub db_get_username_by_id : Conn → ℕ → ℕ → Conn × Option Bytes
  db_get_username_by_id db user_id len =
      let (after, answer) = run db (select_username user_id) in (after, username_of answer len)
