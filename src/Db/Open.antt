-- ===== src/Db/Open.antt =====
-- server/src/db.c: opening and closing the database, and its schema.
use ott_server.Base.{Bool, Option, false, if◌then◌else◌, none, not, some, true, ℕ}
use ott_server.Cstr.{Bytes}
use ott_server.Utils.Files.{Tree, read_file}

-- `db_ctx_t`: whether the connection is open, and whether the mutex is there.
pub record Handle : Type 0 where
  pub connected : Bool
  pub mutex : Bool

abbrev pub closed_handle : Handle
closed_handle = record { connected = false; mutex = false }

-- What pthread_mutex_init, sqlite3_open_v2 and the PRAGMA answer; `handle` says whether
-- sqlite3_open_v2 sets a connection, which it also does when it fails for most reasons.
unfoldable pub db_init : Bool → Bool → Bool → Bool → Handle × Bool
db_init mutex_made handle opens pragma =
    if not mutex_made
    then (closed_handle, false)
    else if not opens
    then (record { connected = handle; mutex = false }, false)
    else if not pragma
    then (closed_handle, false)
    else (record { connected = true; mutex = true }, true)

unfoldable pub db_close : Handle → Handle
db_close handle = closed_handle

-- `execute` is sqlite3_exec on the text of the schema.
module _ {Conn : Type 0} (execute : Conn → Bytes → Conn × Bool) where
  abbrev pub run_text : Conn → Option Bytes → Conn × Bool
  run_text db none = (db, false)
  run_text db (some sql) = execute db sql

  unfoldable pub db_run_schema : Tree → (Bytes → Bool) → (ℕ → Bool) → Conn → Bytes → Conn × Bool
  unfolding read_file
  db_run_schema tree transferred malloc db schema_path =
      run_text db (read_file tree transferred malloc schema_path)
