-- ===== src/Server/Start.antt =====
-- server/src/main.c: what `main` acquires and releases on its way, and the settings it reads.
pub mod Laws
use ott_server.Base.{
  Bool, List, Option, [], false, if◌then◌else◌, negsuc, none, not, pos, some, suc, true, zero, ℕ, ℤ,
  ◌&&◌, ◌++◌, ◌>>=◌, ◌∷◌,
}
use ott_server.Cstr.{Bytes, codes, strtol, truncated}
use ott_server.Server.Static.{choose_path, join_path, path_max}
use ott_server.Utils.Files.{Node, Tree, directory}
use ott_server.Video.Query.{to_int}

pub data Resource : Type 0 where
  database watcher pool listen_socket epoll : Resource

pub data Event : Type 0 where
  acquired released : Resource → Event

-- What the calls of `main` return: whether each succeeds, in their order.
pub record Startup : Type 0 where
  pub directories : Bool
  pub db_opens : Bool
  pub schema_found : Bool
  pub schema_runs : Bool
  pub auth_initialized : Bool
  pub media_synchronized : Bool
  pub watcher_created : Bool
  pub thumbnails_ready : Bool
  pub pool_created : Bool
  pub listens : Bool
  pub epoll_created : Bool
  pub epoll_registered : Bool

-- The events, in order, and the exit status.
abbrev pub Run : Type 0
Run = List Event × ℕ

abbrev pub then_run : List Event → Run → Run
then_run events (more, status) = (events ++ more, status)

abbrev pub watcher_events : Bool → (Resource → Event) → List Event
watcher_events thread_made event = if thread_made then event watcher ∷ [] else []

-- The end of `main`, with epoll: `video_shutdown` joins the thread if it runs.
abbrev pub shut_down : Startup → Run
shut_down o = (
  released epoll ∷ released listen_socket ∷ watcher_events o.watcher_created released
      ++ released pool ∷ released database ∷ [],
  0,
)

abbrev pub run_epoll : Startup → Run
run_epoll o =
    if not o.epoll_created
    then (released listen_socket ∷ released pool ∷ released database ∷ [], 1)
    else then_run (acquired epoll ∷ []) (
        if not o.epoll_registered
        then (released epoll ∷ released listen_socket ∷ released pool ∷ released database ∷ [], 1)
        else shut_down o)

abbrev pub run_pool : Startup → Run
run_pool o =
    if not o.pool_created
    then (released database ∷ [], 1)
    else then_run (acquired pool ∷ []) (
        if not o.listens
        then (released pool ∷ released database ∷ [], 1)
        else then_run (acquired listen_socket ∷ []) (run_epoll o))

abbrev pub run_modules : Startup → Run
run_modules o =
    if not (o.schema_runs && o.auth_initialized && o.media_synchronized)
    then (released database ∷ [], 1)
    else then_run (watcher_events o.watcher_created acquired)
        (if not o.thumbnails_ready then (released database ∷ [], 1) else run_pool o)

unfoldable pub run_main : Startup → Run
run_main o =
    if not (o.directories && o.db_opens)
    then ([], 1)
    else then_run (acquired database ∷ []) (if not o.schema_found then ([], 1) else run_modules o)

-- `value ? atoi (value) : fallback`, and the fallback for what is not positive.
abbrev pub positive_or : ℕ → ℤ → ℕ
positive_or fallback (pos zero) = fallback
positive_or fallback (pos (suc n)) = suc n
positive_or fallback (negsuc n) = fallback

unfoldable pub setting : Option Bytes → ℕ → ℕ
unfolding strtol to_int
setting none fallback = fallback
setting (some value) fallback = positive_or fallback (to_int (strtol value).0)

-- The paths of `server_ctx_t`.
pub record Paths : Type 0 where
  pub static_dir : Bytes
  pub media_dir : Bytes
  pub thumb_dir : Bytes
  pub data_dir : Bytes
  pub db_path : Bytes

abbrev pub is_directory : Option Node → Bool
is_directory (some directory) = true
is_directory _ = false

-- A path that is not empty.
abbrev pub given : Bytes → Option Bytes
given [] = none
given (c ∷ s) = some (c ∷ s)

-- `getenv` gives the variables; `tree` is what stat finds and `ensures` what `ensure_directory`
-- returns.
module _ (tree : Tree) (ensures : Bytes → Bool) (getenv : Bytes → Option Bytes) where
  abbrev pub db_path_in : Bytes → Option Bytes → Option Bytes
  db_path_in data_dir (some (c ∷ s)) = some (truncated path_max (c ∷ s))
  db_path_in data_dir _ = join_path data_dir (codes "app.db") path_max

  abbrev pub ensured : Bytes → List Bytes → Option Bytes
  ensured name candidates = given (choose_path tree ensures true (getenv name) candidates path_max)

  -- The directories and the path of the database, or none if `main` gives up.
  unfoldable pub find_paths : Option Paths
  unfolding choose_path join_path
  find_paths = do
    static_dir ← given (
        choose_path tree ensures false (getenv (codes "STATIC_DIR"))
          (codes "./web/public" ∷ codes "../web/public" ∷ []) path_max)
    media_dir ←
        if is_directory (tree static_dir)
        then ensured (codes "MEDIA_DIR") (codes "./media" ∷ codes "../media" ∷ [])
        else none
    thumb_dir ←
        ensured (codes "THUMB_DIR") (codes "./web/thumbnails" ∷ codes "../web/thumbnails" ∷ [])
    data_dir ← ensured (codes "DATA_DIR") (codes "./data" ∷ codes "../data" ∷ [])
    db_path ← db_path_in data_dir (getenv (codes "DB_PATH"))
    some (record {
      static_dir = static_dir;
      media_dir = media_dir;
      thumb_dir = thumb_dir;
      data_dir = data_dir;
      db_path = db_path;
    })
