-- ===== src/Tests/Program.antt =====
-- server/src/main.c and the thread of video.c on concrete runs.
use ott_server.Auth.Session.{auth_authenticate_request}
use ott_server.Base.{
  Bool, List, [], ap, arith, false, none, pos, refl, some, true, ℕ, ◌++◌, ◌+◌, ◌==◌, ◌∷◌, ◌≡◌, ◌⊎◌,
}
use ott_server.Cstr.{
  codes, decimal, digits_onto, read_digits, split_all, split_on, starts_with, str_case_eq, str_eq,
}
use ott_server.Db.Engine.{Answer, Sql, meaning}
use ott_server.Db.Library.{Library}
use ott_server.Db.Library.Statements.{Reply, Statement, effect}
use ott_server.Db.Tables.{Tables}
use ott_server.Ffmpeg.{Disk, not_forked}
use ott_server.Http.{Request, find_header, get, http_get_header, request_init}
use ott_server.Http.Parse.{parse_head}
use ott_server.Http.Read.{make_room, ok, read_body, read_headers, receive}
use ott_server.Http.Receive.{content_length, http_parse_request, read_rest}
use ott_server.Http.Socket.{Client, Incoming}
use ott_server.Router.{
  Context, find_route, match_segments, method_eq, non_empty, path_matches, route_params,
  router_get_param, segment_match,
}
use ott_server.Router.Send.{fail, router_handle}
use ott_server.Server.Connection.{fresh_context, handle_client}
use ott_server.Server.Connection.Laws.{handle_client_guest}
use ott_server.Server.Handlers.{Environment, call}
use ott_server.Server.Loop.{
  Loop, PollSlot, Served, accept_epoll, accepted_with_epoll, client_event, listening, no_clients,
  poll_sweep, received_event, unwatch,
}
use ott_server.Server.Loop.Conserved.{Served-count}
use ott_server.Server.Loop.Laws.{IsSwept, count, poll_sweep_lem}
use ott_server.Server.Routes.{call_stream, call_thumbnail, routes}
use ott_server.Server.Routes.Links.{find_route-stream_url, id_param}
use ott_server.Server.Start.{Startup, run_main, watcher}
use ott_server.Server.Start.Laws.{held, left_behind, run_main_lem}
use ott_server.Tests.Library.{columns}
use ott_server.Tests.Utils.{chunks}
use ott_server.Video.Listing.{stream_url, thumbnail_url, video_handle_list}
use ott_server.Video.Titles.{parse_int}
use ott_server.Video.Watcher.{MediaWatch, media_watch_rounds}
use ott_server.Video.Watcher.Laws.{fails, media_watch_rounds_lem, succeeds}

abbrev always : ℕ → Bool
always n = true

abbrev stream_of_7 : Request
stream_of_7 = record request_init { method = get; path = codes "/api/videos/7/stream" }

abbrev thumbnail_of_7 : Request
thumbnail_of_7 = record request_init { method = get; path = codes "/api/videos/7/thumbnail" }

abbrev client : Client
client = record { received = []; accepts = 9999 ∷ 9999 ∷ []; transfer = chunks }

abbrev links_context : Context
links_context = fresh_context [] client stream_of_7

stream_link : stream_of_7.path ≡ stream_url 7
unfolding decimal digits_onto
stream_link = refl

thumbnail_link : thumbnail_of_7.path ≡ thumbnail_url 7
unfolding decimal digits_onto
thumbnail_link = refl

find_route-stream_url_example :
    (find_route routes stream_of_7 ≡ some (call_stream, id_param 7))
    × (find_route routes thumbnail_of_7 ≡ some (call_thumbnail, id_param 7))
    × (parse_int (router_get_param (record links_context { params = id_param 7 }) (codes "id"))
        ≡ some 7)
find_route-stream_url_example =
    find_route-stream_url 7 stream_of_7 thumbnail_of_7 links_context (omega arith) refl stream_link
      refl thumbnail_link

-- Descriptor 5 is watched, and handed over at its event; 6 cannot be made nonblocking.
abbrev served_loop : Loop
served_loop = record { watched = []; closed = 6 ∷ []; submitted = 5 ∷ [] }

served : Served false (5 ∷ 6 ∷ []) served_loop
unfolding accept_epoll client_event unwatch
served = received_event [] [] 5 true refl (
    accepted_with_epoll (record { fd = 6; nonblocking = false }) true
      (accepted_with_epoll (record { fd = 5; nonblocking = true }) true listening))

Served-count_example :
    count 5 (5 ∷ 6 ∷ [])
    ≡ count 5 served_loop.watched + count 5 served_loop.closed + count 5 served_loop.submitted
Served-count_example = Served-count false (5 ∷ 6 ∷ []) served_loop 5 served

abbrev slots : List PollSlot
slots =
    record { fd = 5; readable = true; broken = false }
    ∷ record { fd = 6; readable = false; broken = false }
    ∷ record { fd = 7; readable = true; broken = true }
    ∷ []

poll_sweep_lem_example : IsSwept always slots no_clients (poll_sweep always 3 slots no_clients) 7
poll_sweep_lem_example = poll_sweep_lem always 3 slots no_clients 7 (omega arith)

-- A synchronization that fails until the third try.
abbrev third_try : ℕ → ℕ × Bool
third_try n = (n + 1, n == 2)

abbrev watching : MediaWatch
watching = record { running = true; stop = false; last_mtime = 1; interval_sec = 2 }

media_watch_rounds_lem_example :
    media_watch_rounds third_try 8 9 0 watching ≡ (3, record watching { last_mtime = 9 })
media_watch_rounds_lem_example =
    media_watch_rounds_lem third_try 9 2 5 0 3 watching (fails refl (fails refl (succeeds refl)))
      refl (omega arith) (ground arith)

-- Both engines, on one connection.
abbrev Conn : Type 0
Conn = Tables × Library ℕ

abbrev accounts : Conn → Sql → Conn × Answer
accounts (t, l) s = (((meaning t s).0, l), (meaning t s).1)

abbrev library : Conn → Statement ℕ → Conn × Reply ℕ
library (t, l) s =
    let (after, result) = effect (λ text pattern. true) columns (λ user. true) [] l s in
    ((t, after), result)

abbrev environment : Environment ℕ Conn
environment = record {
  accounts = accounts;
  library = library;
  pbkdf2 = λ password salt n. some (password ++ salt);
  random = λ n. none;
  now = pos 99;
  max_age = 3600;
  format = decimal;
  strtod = λ s. some (read_digits 0 s);
  is_negative = λ position. false;
  malloc = λ calls size. true;
  grants = always;
  copies = always;
  entries = some [];
  convert = λ disk video_path path. not_forked;
  tree = λ path. none;
  media_dir = codes "m";
  thumb_dir = codes "t";
  static_dir = codes "s";
  security_headers = [];
}

abbrev database : Conn
database = (
  record { users = []; next_user = 1; sessions = [] },
  record { videos = []; next_video = 1; watches = []; existing = none },
)

abbrev no_disk : Disk
no_disk path = none

abbrev hello : Incoming
hello =
    codes "GET /api/videos?q=a HTTP/1.1\r\nHost: x\r\n" ∷ codes "content-length: 2\r\n\r\nhi" ∷ []

abbrev hello_request : Request
hello_request = record {
  method = get;
  path = codes "/api/videos";
  query = codes "q=a";
  http_version = codes "HTTP/1.1";
  headers =
      record { name = codes "Host"; value = codes "x"; generation = 0 }
      ∷ record { name = codes "content-length"; value = codes "2"; generation = 0 }
      ∷ [];
  body = some (codes "hi");
  body_length = 2;
  raw_length = 62;
  generation = 0;
}

hello_parsed : http_parse_request always 100 none hello ≡ ok (hello_request, [])
unfolding http_parse_request read_headers read_rest read_body make_room receive split_on parse_head
    content_length
hello_parsed = refl

hello_guest :
    auth_authenticate_request accounts (pos 99) database (fresh_context [] client hello_request)
    ≡ (database, fresh_context [] client hello_request, false)
unfolding auth_authenticate_request http_get_header find_header str_case_eq str_eq
hello_guest = refl

hello_refused :
    handle_client environment always 100 database no_disk client hello
    ≡ ok (
      (database, no_disk),
      (fail (fresh_context [] client hello_request) 401 (codes "Unauthorized")).client,
    )
unfolding handle_client call http_parse_request read_headers read_rest read_body make_room receive
    split_on parse_head content_length auth_authenticate_request http_get_header find_header
    str_case_eq str_eq router_handle find_route route_params method_eq path_matches match_segments
    segment_match non_empty split_all video_handle_list starts_with
hello_refused = refl

handle_client_guest_example : (database.1 ≡ database.1) × (no_disk ≡ no_disk)
handle_client_guest_example =
    handle_client_guest environment (λ c. c.1) (λ c s. refl) always 100 database database no_disk
      no_disk client
      (fail (fresh_context [] client hello_request) 401 (codes "Unauthorized")).client hello []
      hello_request hello_parsed (ap (λ r. r.1.authenticated) hello_guest) hello_refused

-- The directory of thumbnails cannot be made.
abbrev no_thumbnails : Startup
no_thumbnails = record {
  directories = true;
  db_opens = true;
  schema_found = true;
  schema_runs = true;
  auth_initialized = true;
  media_synchronized = true;
  watcher_created = true;
  thumbnails_ready = false;
  pool_created = true;
  listens = true;
  epoll_created = true;
  epoll_registered = true;
}

thread_left : held [] (run_main no_thumbnails).0 ≡ watcher ∷ []
unfolding run_main
thread_left = refl

run_main_lem_example :
    (held [] (run_main no_thumbnails).0 ≡ left_behind no_thumbnails)
    × (((run_main no_thumbnails).1 ≡ 0) ⊎ ((run_main no_thumbnails).1 ≡ 1))
run_main_lem_example = run_main_lem no_thumbnails
