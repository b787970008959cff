-- ===== src/Server/Start/Laws.antt =====
-- What `main` still holds when it returns.
use ott_server.Base.{Bool, List, [], arith, false, if◌then◌else◌, not, true, ◌&&◌, ◌∷◌, ◌≡◌, ◌⊎◌}
use ott_server.Server.Start.{
  Event, Resource, Startup, acquired, database, epoll, listen_socket, pool, released, run_main,
  watcher,
}

abbrev same_resource : Resource → Resource → Bool
same_resource database database = true
same_resource watcher watcher = true
same_resource pool pool = true
same_resource listen_socket listen_socket = true
same_resource epoll epoll = true
same_resource _ _ = false

abbrev pub without : Resource → List Resource → List Resource
without r [] = []
without r (x ∷ xs) = let rest = without r xs in if same_resource x r then rest else x ∷ rest

-- The resources that are held after some events.
abbrev pub held : List Resource → List Event → List Resource
held rs [] = rs
held rs (acquired r ∷ events) = held (r ∷ rs) events
held rs (released r ∷ events) = held (without r rs) events

-- What is left behind: the database if the schema file is not there, and the thread that watches
-- the media directory if a later step fails.
abbrev pub left_behind : Startup → List Resource
left_behind o =
    if not (o.directories && o.db_opens)
    then []
    else if not o.schema_found
    then database ∷ []
    else if not (o.schema_runs && o.auth_initialized && o.media_synchronized && o.watcher_created)
    then []
    else if o.thumbnails_ready && o.pool_created && o.listens && o.epoll_created
        && o.epoll_registered
    then []
    else watcher ∷ []

-- When main returns it has released what it acquired, except for the database if the schema file is
-- not there, and for the thread that watches the media directory if a step behind its start fails;
-- the status is 0 or 1, and the resources left are those of this list.
pub run_main_lem :
    (o : Startup)
    → (held [] (run_main o).0 ≡ left_behind o) × (((run_main o).1 ≡ 0) ⊎ ((run_main o).1 ≡ 1))
unfolding run_main
run_main_lem o = ground arith
