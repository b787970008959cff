-- ===== src/Db/Engine.antt =====
-- The statements on accounts that server/src/db.c prepares, with the values bound to them, and what
-- SQL says that each does to the tables of server/schema.sql.
pub mod Laws
use ott_server.Base.{
  List, Option, [], if◌then◌else◌, ltb_ℤ, none, some, ℕ, ℤ, ◌++◌, ◌+◌, ◌==◌, ◌∷◌, ◌≡◌, ◌⊎◌,
}
use ott_server.Cstr.{Bytes, str_eq}
use ott_server.Db.Tables.{Session, Tables, User}

pub data Sql : Type 0 where
  select_credentials : Bytes → Sql
  select_username : ℕ → Sql
  insert_user : Bytes → Bytes → Bytes → Sql
  upsert_user : Bytes → Bytes → Bytes → Sql
  upsert_session : Bytes → ℕ → ℤ → Sql
  select_session : Bytes → Sql
  delete_session : Bytes → Sql
  purge_sessions : ℤ → Sql

-- What sqlite3_prepare_v2 and the first sqlite3_step give: SQLITE_DONE with the last row id, a row with
-- its columns, SQLITE_CONSTRAINT, or any other failure of either call.
pub data Answer : Type 0 where
  not_prepared : Answer
  not_stepped : Answer
  constraint : Answer
  done_at : ℕ → Answer
  credentials_row : ℕ → Bytes → Bytes → Answer
  username_row : Bytes → Answer
  session_row : ℕ → ℤ → Answer

unfoldable pub find_user : Bytes → List User → Option User
unfolding str_eq
find_user name [] = none
find_user name (u ∷ users) =
    let rest = find_user name users in if str_eq u.username name then some u else rest

unfoldable pub find_id : ℕ → List User → Option User
find_id id [] = none
find_id id (u ∷ users) = let rest = find_id id users in if u.id == id then some u else rest

unfoldable pub find_session : Bytes → List Session → Option Session
unfolding str_eq
find_session token [] = none
find_session token (s ∷ sessions) =
    let rest = find_session token sessions in if str_eq s.token token then some s else rest

-- ON CONFLICT (token) DO UPDATE: in place, or a new row.
unfoldable pub put_session : Session → List Session → List Session
unfolding str_eq
put_session new [] = new ∷ []
put_session new (s ∷ sessions) =
    let rest = put_session new sessions in
    if str_eq s.token new.token then new ∷ sessions else s ∷ rest

unfoldable pub without_session : Bytes → List Session → List Session
unfolding str_eq
without_session token [] = []
without_session token (s ∷ sessions) =
    let rest = without_session token sessions in if str_eq s.token token then rest else s ∷ rest

-- WHERE NOT expires_at < ?
unfoldable pub unexpired : ℤ → List Session → List Session
unexpired now [] = []
unexpired now (s ∷ sessions) =
    let rest = unexpired now sessions in if ltb_ℤ s.expires_at now then rest else s ∷ rest

unfoldable pub set_password : Bytes → Bytes → Bytes → List User → List User
unfolding str_eq
set_password name hash salt [] = []
set_password name hash salt (u ∷ users) =
    let rest = set_password name hash salt users in
    if str_eq u.username name
    then record u { password_hash = hash; salt = salt } ∷ rest
    else u ∷ rest

abbrev pub add_user : Tables → Bytes → Bytes → Bytes → Tables
add_user t name hash salt = record t {
  users =
      t.users
      ++ record { id = t.next_user; username = name; password_hash = hash; salt = salt } ∷ [];
  next_user = t.next_user + 1;
}

-- INSERT: a name that is there violates UNIQUE; or it updates the row, with ON CONFLICT, which also
-- advances the counter of the ids.
abbrev pub inserted : Tables → Bytes → Bytes → Bytes → Option User → Tables × Answer
inserted t name hash salt none = (add_user t name hash salt, done_at t.next_user)
inserted t name hash salt (some u) = (t, constraint)

abbrev pub upserted : Tables → Bytes → Bytes → Bytes → Option User → Tables × Answer
upserted t name hash salt none = (add_user t name hash salt, done_at t.next_user)
upserted t name hash salt (some u) = (
  record t { users = set_password name hash salt t.users; next_user = t.next_user + 1 },
  done_at u.id,
)

-- A session of a user who is not there violates FOREIGN KEY.
abbrev pub stored : Tables → Session → Option User → Tables × Answer
stored t s none = (t, constraint)
stored t s (some u) = (record t { sessions = put_session s t.sessions }, done_at 0)

abbrev pub credentials_answer : Option User → Answer
credentials_answer none = done_at 0
credentials_answer (some u) = credentials_row u.id u.password_hash u.salt

abbrev pub username_answer : Option User → Answer
username_answer none = done_at 0
username_answer (some u) = username_row u.username

abbrev pub session_answer : Option Session → Answer
session_answer none = done_at 0
session_answer (some s) = session_row s.user_id s.expires_at

unfoldable pub meaning : Tables → Sql → Tables × Answer
meaning t (select_credentials name) = (t, credentials_answer (find_user name t.users))
meaning t (select_username id) = (t, username_answer (find_id id t.users))
meaning t (insert_user name hash salt) = inserted t name hash salt (find_user name t.users)
meaning t (upsert_user name hash salt) = upserted t name hash salt (find_user name t.users)
meaning t (upsert_session token id expires) =
    stored t (record { token = token; user_id = id; expires_at = expires }) (find_id id t.users)
meaning t (select_session token) = (t, session_answer (find_session token t.sessions))
meaning t (delete_session token) =
    (record t { sessions = without_session token t.sessions }, done_at 0)
meaning t (purge_sessions now) = (record t { sessions = unexpired now t.sessions }, done_at 0)

-- A failure that leaves the tables as they are: the disk, a lock, memory.
abbrev pub IsFailure : Answer → Type 0
IsFailure a = (a ≡ not_prepared) ⊎ (a ≡ not_stepped)

-- SQLite as documented: `view` gives the tables of a connection, and each statement fails and leaves
-- them alone, or does what SQL says.
abbrev pub IsSqlite : {Conn : Type 0} → (Conn → Sql → Conn × Answer) → (Conn → Tables) → Type 0
IsSqlite {Conn} run view =
    (c : Conn) (s : Sql)
    → ((view (run c s).0 ≡ view c) × IsFailure (run c s).1)
      ⊎ ((view (run c s).0 ≡ (meaning (view c) s).0) × ((run c s).1 ≡ (meaning (view c) s).1))
