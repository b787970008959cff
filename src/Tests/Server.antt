-- ===== src/Tests/Server.antt =====
-- server/src/main.c and router.c on concrete requests.
use ott_server.Base.{
  All, List, [], drop, false, if◌then◌else◌, length, none, refl, some, take, true, ℕ, ◌++◌, ◌+◌,
  ◌↔◌, ◌∷◌, ◌≡◌, ◌≤◌,
}
use ott_server.Cstr.{Bytes, codes, split_all, str_eq}
use ott_server.Http.{Method, Request, get, request_init}
use ott_server.Http.Socket.{Client}
use ott_server.Router.{
  Context, Param, Route, match_segments, method_eq, non_empty, param_slots, path_matches,
  route_params, segment_match, segments,
}
use ott_server.Router.Dispatch.{router_handle_first}
use ott_server.Router.Match.{Instance, path_matches_iff}
use ott_server.Router.Send.{router_handle}
use ott_server.Server.Routes.{Handler, call_stream, call_thumbnail, entry, routes}
use ott_server.Server.Routes.Laws.{routes_disjoint}
use ott_server.Server.Static.{is_safe_path, serve_static_file}
use ott_server.Server.Static.Laws.{serve_static_file_confined}
use ott_server.Tests.Utils.{chunks}
use ott_server.Utils.Files.{Tree, file}

abbrev client : Client
client = record { received = []; accepts = 9999 ∷ 9999 ∷ []; transfer = chunks }

abbrev request : Method → Bytes → Request
request method path = record request_init { method = method; path = path }

abbrev context : Request → Context
context req = record {
  security_headers = codes "X: y\r\n";
  client = client;
  request = req;
  authenticated = false;
  user_id = 0;
  username = [];
  session_token = [];
  params = [];
}

abbrev stream_request : Request
stream_request = request get (codes "/api/videos/7/stream")

abbrev id_param : List Param
id_param = record { key = codes "id"; value = codes "7" } ∷ []

stream_matches :
    route_params (entry get (codes "/api/videos/:id/stream") call_stream) stream_request
    ≡ some id_param
unfolding route_params method_eq path_matches match_segments segment_match non_empty split_all
    str_eq
stream_matches = refl

routes_disjoint_example :
    route_params (entry get (codes "/api/videos/:id/thumbnail") call_thumbnail) stream_request
    ≡ none
routes_disjoint_example =
    routes_disjoint (take 5 routes) [] (drop 7 routes)
      (entry get (codes "/api/videos/:id/stream") call_stream)
      (entry get (codes "/api/videos/:id/thumbnail") call_thumbnail) stream_request id_param refl
      stream_matches

path_matches_iff_example :
    (path_matches (codes "/api/videos/:id/stream") (codes "/api/videos/7/stream") ≡ some id_param)
    ↔ (Instance
          (segments (codes "/api/videos/:id/stream"))
          (segments (codes "/api/videos/7/stream"))
          id_param
        × (length id_param ≤ param_slots))
path_matches_iff_example =
    path_matches_iff (codes "/api/videos/:id/stream") (codes "/api/videos/7/stream") id_param

-- A handler that only counts its calls.
abbrev count : Handler → ℕ → Context → ℕ × Context
count handler n ctx = (n + 1, ctx)

earlier_miss : All (λ (q : Route Handler). route_params q stream_request ≡ none) (take 5 routes)
unfolding route_params method_eq path_matches match_segments segment_match non_empty split_all
    str_eq
earlier_miss = (refl, (refl, (refl, (refl, (refl, tt)))))

router_handle_first_example :
    router_handle count routes 0 (context stream_request)
    ≡ (1, record (context stream_request) { params = id_param })
router_handle_first_example =
    router_handle_first count (take 5 routes) (drop 6 routes)
      (entry get (codes "/api/videos/:id/stream") call_stream) id_param 0 (context stream_request)
      earlier_miss stream_matches

-- A file system with a page, and one that also has a secret outside the static directory.
abbrev plain_tree : Tree
plain_tree path = if str_eq path (codes "w/index.html") then some (file (codes "hi")) else none

abbrev secret_tree : Tree
secret_tree path =
    if str_eq path (codes "w/index.html")
    then some (file (codes "hi"))
    else if str_eq path (codes "etc/secret")
    then some (file (codes "key"))
    else none

agree :
    (relative : Bytes)
    → is_safe_path relative ≡ true
    → plain_tree (codes "w" ++ b'/' ∷ relative) ≡ secret_tree (codes "w" ++ b'/' ∷ relative)
unfolding str_eq
agree relative h = refl

serve_static_file_confined_example :
    serve_static_file plain_tree (codes "w") [] client (codes "/../etc/secret")
    ≡ serve_static_file secret_tree (codes "w") [] client (codes "/../etc/secret")
serve_static_file_confined_example =
    serve_static_file_confined plain_tree secret_tree (codes "w") [] client (codes "/../etc/secret")
      agree
