-- ===== src/Auth/Session.antt =====
-- server/src/auth.c: the session of a request, over any database engine.
pub mod Laws
pub mod Reliable
use ott_server.Auth.Cookie.{parse_cookie}
use ott_server.Base.{Bool, Option, false, if◌then◌else◌, leb_ℤ, none, some, true, ℕ, ℤ}
use ott_server.Cstr.{Bytes, codes, truncated}
use ott_server.Db.Accounts.{db_delete_session, db_get_session, db_get_username_by_id}
use ott_server.Db.Engine.{Answer, Sql}
use ott_server.Http.{http_get_header}
use ott_server.Http.Read.{Outcome, ok}
use ott_server.Router.{Context}

abbrev pub session_cookie : Bytes
session_cookie = codes "ott_session"

module _ {Conn : Type 0} (run : Conn → Sql → Conn × Answer) (now : ℤ) where
  -- db_get_username_by_id leaves the name alone when it fails.
  abbrev pub named : Context → Option Bytes → Context
  named ctx none = ctx
  named ctx (some name) = record ctx { username = name }

  -- `load_session` with the row that was read.
  abbrev pub admit_session : Bytes → Context → Conn × Option (ℕ × ℤ) → Conn × Context × Bool
  admit_session token ctx (db, none) = (db, ctx, false)
  admit_session token ctx (db, some (user_id, expires)) =
      let deleted = db_delete_session run db token in
      let name = db_get_username_by_id run db user_id 64 in
      if leb_ℤ expires now then (deleted.0, ctx, false) else (
        name.0,
        named
            (record ctx {
              authenticated = true;
              user_id = user_id;
              session_token = truncated 128 token;
            })
            name.1,
        true,
      )

  unfoldable pub load_session : Conn → Bytes → Context → Conn × Context × Bool
  load_session db token ctx = admit_session token ctx (db_get_session run db token)

  abbrev pub with_token : Conn → Context → Outcome Bytes → Conn × Context × Bool
  with_token db ctx (ok token) = load_session db token ctx
  with_token db ctx _ = (db, ctx, false)

  abbrev pub with_cookies : Conn → Context → Option Bytes → Conn × Context × Bool
  with_cookies db ctx none = (db, ctx, false)
  with_cookies db ctx (some header) = with_token db ctx (parse_cookie session_cookie 128 header)

  unfoldable pub auth_authenticate_request : Conn → Context → Conn × Context × Bool
  unfolding load_session
  auth_authenticate_request db ctx =
      with_cookies db ctx (http_get_header ctx.request (codes "Cookie"))
