-- ===== src/Server/Connection.antt =====
-- server/src/main.c: `handle_client`, which a worker runs for a connection.
pub mod Laws
use ott_server.Auth.Session.{auth_authenticate_request}
use ott_server.Auth.Session.Reliable.{admitted}
use ott_server.Base.{Bool, [], false, if◌then◌else◌, none, ℕ}
use ott_server.Cstr.{Bytes, codes, starts_with}
use ott_server.Ffmpeg.{Disk}
use ott_server.Http.{Request}
use ott_server.Http.Read.{Outcome, failed, ok, stuck}
use ott_server.Http.Receive.{http_parse_request}
use ott_server.Http.Socket.{Client, Incoming}
use ott_server.Router.{Context}
use ott_server.Router.Send.{router_handle}
use ott_server.Server.Handlers.{Environment, call}
use ott_server.Server.Routes.{routes}
use ott_server.Server.Static.{serve_static_file}

-- The context of a request, as `memset` and the assignments make it.
abbrev pub fresh_context : Bytes → Client → Request → Context
fresh_context security_headers client req = record {
  security_headers = security_headers;
  client = client;
  request = req;
  authenticated = false;
  user_id = 0;
  username = [];
  session_token = [];
  params = [];
}

module _ {Double Conn : Type 0} (env : Environment Double Conn) (allocates : ℕ → Bool) where
  -- `strncmp (req.path, "/api/", 5) == 0`
  abbrev pub serve : Disk → Conn × Context × Bool → (Conn × Disk) × Client
  serve disk (db, ctx, admitted) =
      let ((after, left), answered) = router_handle (call env) routes (db, disk) ctx in
      let served =
        serve_static_file env.tree env.static_dir env.security_headers ctx.client
          ctx.request.path in
      if starts_with (codes "/api/") ctx.request.path
      then ((after, left), answered.client)
      else ((db, disk), served.0)

  -- A request that does not parse gets no answer.
  abbrev pub handle_parsed :
      Conn → Disk → Client → Outcome (Request × Incoming) → Outcome ((Conn × Disk) × Client)
  handle_parsed db disk client (ok (req, rest)) = ok (
      serve disk (
        auth_authenticate_request env.accounts env.now db
          (fresh_context env.security_headers client req)))
  handle_parsed db disk client failed = ok ((db, disk), client)
  handle_parsed db disk client stuck = stuck

  -- The state, and what the client has received when the socket is closed; stuck if the fuel of the
  -- parser runs out.
  unfoldable pub handle_client :
      ℕ → Conn → Disk → Client → Incoming → Outcome ((Conn × Disk) × Client)
  unfolding call
  handle_client fuel db disk client incoming =
      handle_parsed db disk client (http_parse_request allocates fuel none incoming)
