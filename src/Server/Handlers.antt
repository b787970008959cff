-- ===== src/Server/Handlers.antt =====
-- server/src/main.c: the handlers that the table of routes names, run on the server's state.
use ott_server.Auth.Login.{auth_handle_login, auth_handle_logout, auth_handle_me}
use ott_server.Auth.Password.{Pbkdf2}
use ott_server.Auth.Register.{auth_handle_register}
use ott_server.Base.{Bool, List, Option, ℕ, ℤ}
use ott_server.Cstr.{Bytes}
use ott_server.Db.Engine.{Answer, Sql}
use ott_server.Db.Library.Statements.{Reply, Statement}
use ott_server.Ffmpeg.{Disk, Process, files_of}
use ott_server.History.{history_handle_get, history_handle_update}
use ott_server.Router.{Context}
use ott_server.Server.Routes.{
  Handler, call_history_get, call_history_update, call_list, call_login, call_logout, call_me,
  call_register, call_stream, call_thumbnail,
}
use ott_server.Utils.Files.{Tree}
use ott_server.Video.Listing.{video_handle_list}
use ott_server.Video.Stream.{video_handle_stream, video_handle_thumbnail}
use ott_server.Video.Sync.{sync_media_directory}

-- What the handlers need besides the request: the engine, the operating system, the libraries and
-- the directories of server/include/server.h.
pub record Environment (Double Conn : Type 0) : Type 0 where
  pub accounts : Conn → Sql → Conn × Answer
  pub library : Conn → Statement Double → Conn × Reply Double
  pub pbkdf2 : Pbkdf2
  pub random : ℕ → Option Bytes
  pub now : ℤ
  pub max_age : ℕ
  pub format : Double → Bytes
  pub strtod : Bytes → Option (Double × Bytes)
  pub is_negative : Double → Bool
  pub malloc : ℕ → ℕ → Bool
  pub grants : ℕ → Bool
  pub copies : ℕ → Bool
  pub entries : Option (List Bytes)
  pub convert : Disk → Bytes → Bytes → Process
  pub tree : Tree
  pub media_dir : Bytes
  pub thumb_dir : Bytes
  pub static_dir : Bytes
  pub security_headers : Bytes

module _ {Double Conn : Type 0} (env : Environment Double Conn) where
  -- What a handler does to the database, the disk and the context.
  abbrev pub on_database : Disk → Conn × Context → (Conn × Disk) × Context
  on_database disk (db, ctx) = ((db, disk), ctx)

  abbrev pub on_disk : Conn × Disk × Context → (Conn × Disk) × Context
  on_disk (db, disk, ctx) = ((db, disk), ctx)

  unfoldable pub call : Handler → Conn × Disk → Context → (Conn × Disk) × Context
  call call_login (db, disk) ctx =
      on_database disk
        (auth_handle_login env.accounts env.pbkdf2 env.random env.now env.max_age db ctx)
  call call_register (db, disk) ctx =
      on_database disk
        (auth_handle_register env.accounts env.pbkdf2 env.random env.now env.max_age db ctx)
  call call_logout (db, disk) ctx = on_database disk (auth_handle_logout env.accounts db ctx)
  call call_me (db, disk) ctx = ((db, disk), auth_handle_me ctx)
  call call_list (db, disk) ctx = on_database disk (
      video_handle_list env.format env.malloc env.library env.grants
        (λ d. sync_media_directory env.library env.grants env.copies d env.entries) db ctx)
  call call_stream (db, disk) ctx =
      on_database disk (video_handle_stream env.library env.media_dir (files_of disk) db ctx)
  call call_thumbnail (db, disk) ctx =
      on_disk
        (video_handle_thumbnail env.library env.media_dir env.thumb_dir env.convert disk db ctx)
  call call_history_get (db, disk) ctx =
      on_database disk (history_handle_get env.format env.malloc env.library db ctx)
  call call_history_update (db, disk) ctx =
      on_database disk (history_handle_update env.library env.strtod env.is_negative db ctx)
