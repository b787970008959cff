-- ===== src/Auth/Login.antt =====
-- server/src/auth.c: the handlers of login, logout and me.
pub mod Replies
pub mod Laws
pub mod Logout
use ott_server.Auth.Cookie.{parse_cookie}
use ott_server.Auth.Password.{
  Pbkdf2, auth_generate_session_token, auth_verify_password, hash_length, salt_length,
}
use ott_server.Auth.Session.{session_cookie}
use ott_server.Base.{
  Bool, Option, [], false, if◌then◌else◌, leb, length, none, pos, some, true, ℕ, ℤ, ◌++◌, ◌+ℤ◌, ◌∷◌,
}
use ott_server.Cstr.{Bytes, codes, decimal, truncated}
use ott_server.Db.Accounts.{
  db_create_session, db_delete_session, db_get_user_credentials, db_purge_expired_sessions,
}
use ott_server.Db.Engine.{Answer, Sql, stored}
use ott_server.Http.{Request, http_get_header, http_status_text}
use ott_server.Http.Read.{Outcome, ok}
use ott_server.Http.Response.{http_send_response}
use ott_server.Router.{Context}
use ott_server.Router.Send.{body_of, fail, reply}
use ott_server.Utils.Json.{json_get_string}

abbrev pub sign_in : Context → ℕ → Bytes → Bytes → Context
sign_in ctx user_id username token = record ctx {
  authenticated = true;
  user_id = user_id;
  username = truncated 64 username;
  session_token = truncated 128 token;
}

-- "Set-Cookie", in a buffer of 512 bytes.
unfoldable pub cookie_header : Bytes → ℕ → Bytes
unfolding decimal
cookie_header token max_age = truncated 512 (
    codes "Set-Cookie: ott_session="
    ++ (token
        ++ (codes "; HttpOnly; SameSite=Lax; Path=/; Max-Age="
            ++ (decimal max_age ++ codes "\r\n"))))

unfoldable pub name_body : Bytes → Bytes
name_body username = truncated 256 (codes "{\"username\":\"" ++ (username ++ codes "\"}"))

unfoldable pub user_body : Bytes → ℕ → Bytes
unfolding decimal
user_body username user_id = truncated 256 (
    codes "{\"username\":\""
    ++ (username ++ (codes "\",\"userId\":" ++ (decimal user_id ++ codes "}"))))

-- A session that is opened for a user.
pub data Opened : Type 0 where
  no_token : Opened
  not_stored : Opened
  opened : Bytes → Opened

abbrev pub stored_as : Bytes → Bool → Opened
stored_as token true = opened token
stored_as token false = not_stored

-- `random n` is what RAND_bytes gives for n bytes; `max_age` is the life of a session in seconds.
module _ {Conn : Type 0} (run : Conn → Sql → Conn × Answer) (pbkdf2 : Pbkdf2)
    (random : ℕ → Option Bytes) (now : ℤ) (max_age : ℕ) where
  abbrev pub store_session : Conn → ℕ → Option Bytes → Conn × Opened
  store_session db user_id none = (db, no_token)
  store_session db user_id (some token) =
      let purged = db_purge_expired_sessions run db now in
      let stored = db_create_session run purged.0 token user_id (now +ℤ pos max_age) in
      (stored.0, stored_as token stored.1)

  -- A new token, the purge and the new row, as login and register do it.
  unfoldable pub open_session : Conn → ℕ → Conn × Opened
  open_session db user_id = store_session db user_id (auth_generate_session_token random 128)

  abbrev pub logged_in : Context → ℕ → Bytes → Conn × Opened → Conn × Context
  logged_in ctx user_id username (db, no_token) =
      (db, fail ctx 500 (codes "Failed to generate session"))
  logged_in ctx user_id username (db, not_stored) =
      (db, fail ctx 500 (codes "Failed to persist session"))
  logged_in ctx user_id username (db, opened token) = (
    db,
    reply (sign_in ctx user_id username token) 200 (name_body username)
        (some (cookie_header token max_age)),
  )

  abbrev pub check_password :
      Context → Bytes → Bytes → Conn × Option (ℕ × Bytes × Bytes) → Conn × Context
  check_password ctx username password (db, none) = (db, fail ctx 401 (codes "Invalid credentials"))
  check_password ctx username password (db, some (user_id, hash, salt)) =
      let session = open_session db user_id in
      if auth_verify_password pbkdf2 password salt hash hash_length
      then logged_in ctx user_id username session
      else (db, fail ctx 401 (codes "Invalid credentials"))

  abbrev pub log_in : Conn → Context → Option Bytes → Option Bytes → Conn × Context
  log_in db ctx (some username) (some password) =
      check_password ctx username password
        (db_get_user_credentials run db username hash_length salt_length)
  log_in db ctx _ _ = (db, fail ctx 400 (codes "Invalid payload"))

  abbrev pub log_in_with : Conn → Context → Option Bytes → Conn × Context
  log_in_with db ctx none = (db, fail ctx 400 (codes "Missing credentials"))
  log_in_with db ctx (some body) =
      log_in db ctx (json_get_string body (codes "username") 128)
        (json_get_string body (codes "password") 128)

  unfoldable pub auth_handle_login : Conn → Context → Conn × Context
  auth_handle_login db ctx = log_in_with db ctx (body_of ctx.request)

-- `clear_session_cookie`: 204 with a cookie that has expired.
abbrev pub expired_cookie : Bytes
expired_cookie =
    codes
      "Set-Cookie: ott_session=deleted; HttpOnly; SameSite=Lax; Path=/; Max-Age=0; Expires=Thu, 01 Jan 1970 00:00:00 GMT\r\n"

unfoldable pub clear_session_cookie : Context → Context
clear_session_cookie ctx =
    let headers = ctx.security_headers ++ expired_cookie in
    if leb 1024 (length headers) then ctx else record ctx {
      client =
          (http_send_response ctx.client 204 (http_status_text 204) none none (some headers)).0;
    }

abbrev pub sign_out : Context → Context
sign_out ctx = record ctx { authenticated = false; user_id = 0; username = []; session_token = [] }

module _ {Conn : Type 0} (run : Conn → Sql → Conn × Answer) where
  -- The session of the context is deleted, or that of the cookie.
  abbrev pub delete_cookie : Conn → Outcome Bytes → Conn
  delete_cookie db (ok token) = (db_delete_session run db token).0
  delete_cookie db _ = db

  abbrev pub delete_from : Conn → Option Bytes → Conn
  delete_from db none = db
  delete_from db (some header) = delete_cookie db (parse_cookie session_cookie 128 header)

  abbrev pub delete_current : Conn → Request → Bytes → Conn
  delete_current db req [] = delete_from db (http_get_header req (codes "Cookie"))
  delete_current db req (c ∷ token) = (db_delete_session run db (c ∷ token)).0

  unfoldable pub auth_handle_logout : Conn → Context → Conn × Context
  auth_handle_logout db ctx =
      (delete_current db ctx.request ctx.session_token, clear_session_cookie (sign_out ctx))

unfoldable pub auth_handle_me : Context → Context
auth_handle_me ctx =
    if ctx.authenticated
    then reply ctx 200 (user_body ctx.username ctx.user_id) none
    else fail ctx 401 (codes "Unauthorized")
