-- ===== src/Server/Connection/Laws.antt =====
-- What a request without a session can change.
use ott_server.Auth.Preserves.{
  auth_authenticate_request_keeps, auth_handle_login_keeps, auth_handle_logout_keeps,
  auth_handle_register_keeps,
}
use ott_server.Auth.Session.{auth_authenticate_request}
use ott_server.Auth.Session.Reliable.{admitted}
use ott_server.Base.{
  Bool, List, Option, [], ap, false, if◌then◌else◌, none, refl, some, sym, true, ℕ, ◌∙◌, ◌≡◌,
}
use ott_server.Cstr.{codes, starts_with}
use ott_server.Db.Engine.{Sql}
use ott_server.Db.Library.{Library}
use ott_server.Ffmpeg.{Disk, files_of}
use ott_server.History.{history_handle_get, history_handle_update}
use ott_server.History.Guards.{handlers_unauthenticated}
use ott_server.Http.{Request}
use ott_server.Http.Read.{failed, ok, stuck}
use ott_server.Http.Receive.{http_parse_request}
use ott_server.Http.Socket.{Client, Incoming}
use ott_server.Router.{Context, Param, find_route}
use ott_server.Router.Send.{dispatch, fail, router_handle}
use ott_server.Server.Connection.{fresh_context, handle_client, handle_parsed, serve}
use ott_server.Server.Handlers.{Environment, call}
use ott_server.Server.Routes.{
  Handler, call_history_get, call_history_update, call_list, call_login, call_logout, call_me,
  call_register, call_stream, call_thumbnail, routes,
}
use ott_server.Server.Static.{serve_static_file}
use ott_server.Video.Listing.{video_handle_list}
use ott_server.Video.Stream.{video_handle_stream, video_handle_thumbnail}
use ott_server.Video.Sync.{sync_media_directory}

module _ {Double Conn : Type 0} (env : Environment Double Conn) (view : Conn → Library Double)
    (apart : (c : Conn) (s : Sql) → view (env.accounts c s).0 ≡ view c) where
  refusals :
      (db : Conn) (disk : Disk) (ctx : Context)
      → ctx.authenticated ≡ false
      → let refused = fail ctx 401 (codes "Unauthorized") in
        (video_handle_list env.format env.malloc env.library env.grants
            (λ d. sync_media_directory env.library env.grants env.copies d env.entries)
            db
            ctx
          ≡ (db, refused))
        × (video_handle_stream env.library env.media_dir (files_of disk) db ctx ≡ (db, refused))
        × (video_handle_thumbnail env.library env.media_dir env.thumb_dir env.convert disk db ctx
            ≡ (db, disk, refused))
        × (history_handle_get env.format env.malloc env.library db ctx ≡ (db, refused))
        × (history_handle_update env.library env.strtod env.is_negative db ctx ≡ (db, refused))
  refusals db disk ctx guest =
      handlers_unauthenticated env.library env.format env.malloc env.grants
        (λ d. sync_media_directory env.library env.grants env.copies d env.entries) env.media_dir
        env.thumb_dir env.convert env.strtod env.is_negative (files_of disk) disk db ctx guest

  -- A handler that runs for a context that is not authenticated.
  call_guest :
      (handler : Handler) (db : Conn) (disk : Disk) (ctx : Context)
      → ctx.authenticated ≡ false
      → let ((after, left), answered) = call env handler (db, disk) ctx in
        (view after ≡ view db) × (left ≡ disk)
  unfolding call
  call_guest call_login db disk ctx guest = (
    auth_handle_login_keeps env.accounts view apart env.pbkdf2 env.random env.now env.max_age db
        ctx,
    refl,
  )
  call_guest call_register db disk ctx guest = (
    auth_handle_register_keeps env.accounts view apart env.pbkdf2 env.random env.now env.max_age db
        ctx,
    refl,
  )
  call_guest call_logout db disk ctx guest =
      (auth_handle_logout_keeps env.accounts view apart db ctx, refl)
  call_guest call_me db disk ctx guest = (refl, refl)
  call_guest call_list db disk ctx guest = (ap (λ r. view r.0) (refusals db disk ctx guest).0, refl)
  call_guest call_stream db disk ctx guest =
      (ap (λ r. view r.0) (refusals db disk ctx guest).1, refl)
  call_guest call_thumbnail db disk ctx guest = (
    ap (λ r. view r.0) (refusals db disk ctx guest).2,
    ap (λ r. r.1) (refusals db disk ctx guest).2,
  )
  call_guest call_history_get db disk ctx guest =
      (ap (λ r. view r.0) (refusals db disk ctx guest).3, refl)
  call_guest call_history_update db disk ctx guest =
      (ap (λ r. view r.0) (refusals db disk ctx guest).4, refl)

  -- Over an engine whose statements on accounts leave videos and watch history alone, a connection
  -- whose request ends its authentication without a user leaves the tables of videos and watch
  -- history and the files as they were, whatever it asks for.
  pub handle_client_guest :
      (allocates : ℕ → Bool) (fuel : ℕ) (db after : Conn) (disk left : Disk)
      (client answered : Client) (incoming rest : Incoming) (req : Request)
      → http_parse_request allocates fuel none incoming ≡ ok (req, rest)
      → (auth_authenticate_request env.accounts env.now db
          (fresh_context env.security_headers client req)).1.authenticated
        ≡ false
      → handle_client env allocates fuel db disk client incoming ≡ ok ((after, left), answered)
      → (view after ≡ view db) × (left ≡ disk)
  unfolding handle_client router_handle
  handle_client_guest allocates fuel db after disk left client answered incoming rest req parsed
        guest e =
      let first = fresh_context env.security_headers client req in
      let r = auth_authenticate_request env.accounts env.now db first in
      let kept = auth_authenticate_request_keeps env.accounts view apart env.now db first in
      let served : ok (serve env allocates disk r) ≡ ok ((after, left), answered) =
        ap (handle_parsed env allocates db disk client) (sym parsed) ∙ e in
      let same : serve env allocates disk r ≡ ((after, left), answered) = ok_inj served in
      let (videos, files) = go r guest kept in
      (ap (λ q. view q.0.0) (sym same) ∙ videos, ap (λ q. q.0.1) (sym same) ∙ files)
    where
      ok_inj : {A : Type 0} {x y : A} → ok x ≡ ok y → x ≡ y
      ok_inj {x = x} h = ap (λ o. elim o [ ok a ↦ a | failed ↦ x | stuck ↦ x ]) h

      found :
          (o : Option (Handler × List Param)) (c : Conn) (ctx : Context)
          → ctx.authenticated ≡ false
          → let ((later, files), sent) = dispatch (call env) (c, disk) ctx o in
            (view later ≡ view c) × (files ≡ disk)
      found none c ctx g = (refl, refl)
      found (some (handler, params)) c ctx g =
          call_guest handler c disk (record ctx { params = params }) g

      go :
          (r : Conn × Context × Bool)
          → r.1.authenticated ≡ false
          → view r.0 ≡ view db
          → (view (serve env allocates disk r).0.0 ≡ view db)
            × ((serve env allocates disk r).0.1 ≡ disk)
      go (c, ctx, admitted) g kept = decide (starts_with (codes "/api/") ctx.request.path)
        where
          decide :
              (b : Bool)
              → let answer : (Conn × Disk) × Client =
                  if b
                  then (
                    (router_handle (call env) routes (c, disk) ctx).0,
                    (router_handle (call env) routes (c, disk) ctx).1.client,
                  )
                  else (
                    (c, disk),
                    (serve_static_file env.tree env.static_dir env.security_headers ctx.client
                        ctx.request.path).0,
                  ) in
                (view answer.0.0 ≡ view db) × (answer.0.1 ≡ disk)
          decide false = (kept, refl)
          decide true =
              let (videos, files) =
                found (find_route routes ctx.request) c (record ctx { params = [] }) g in
              (videos ∙ kept, files)
