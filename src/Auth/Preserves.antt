-- ===== src/Auth/Preserves.antt =====
-- What all statements on accounts leave alone, the functions of server/src/auth.c leave alone.
use ott_server.Auth.Cookie.{parse_cookie}
use ott_server.Auth.Login.{
  Opened, auth_handle_login, auth_handle_logout, check_password, delete_cookie, delete_current,
  delete_from, log_in, log_in_with, logged_in, no_token, not_stored, open_session, opened,
  store_session,
}
use ott_server.Auth.Password.{
  Pbkdf2, auth_generate_session_token, auth_hash_password, auth_verify_password, hash_length,
  salt_length,
}
use ott_server.Auth.Register.{
  Form, accepted, auth_handle_register, registered, registration, rejected, with_body_of, with_form,
  with_password, with_user,
}
use ott_server.Auth.Session.{
  admit_session, auth_authenticate_request, load_session, session_cookie, with_cookies, with_token,
}
use ott_server.Base.{
  Bool, Bool-cases, Option, [], false, if◌then◌else◌, inl, inr, leb_ℤ, none, pos, refl, some, true,
  ℕ, ℤ, ◌+ℤ◌, ◌∙◌, ◌∷◌, ◌≡◌,
}
use ott_server.Cstr.{Bytes, codes}
use ott_server.Db.Accounts.{
  Created, created, db_create_session, db_create_user, db_delete_session, db_get_session,
  db_get_user_credentials, db_get_username_by_id, db_purge_expired_sessions, duplicate, not_created,
}
use ott_server.Db.Engine.{
  Answer, Sql, delete_session, insert_user, purge_sessions, select_credentials, select_session,
  select_username, upsert_session,
}
use ott_server.Http.{http_get_header}
use ott_server.Http.Read.{Outcome, failed, ok, stuck}
use ott_server.Router.{Context}
use ott_server.Router.Send.{body_of, fail}
use ott_server.Utils.Json.{json_get_string}

module _ {Conn A : Type 0} (run : Conn → Sql → Conn × Answer) (view : Conn → A)
    (keeps : (c : Conn) (s : Sql) → view (run c s).0 ≡ view c) where
  named_db : (c : Conn) (id : ℕ) → view (db_get_username_by_id run c id 64).0 ≡ view c
  unfolding db_get_username_by_id
  named_db c id = keeps c (select_username id)

  pub deleted_db : (c : Conn) (token : Bytes) → view (db_delete_session run c token).0 ≡ view c
  unfolding db_delete_session
  deleted_db c token = keeps c (delete_session token)

  pub auth_authenticate_request_keeps :
      (now : ℤ) (db : Conn) (ctx : Context)
      → view (auth_authenticate_request run now db ctx).0 ≡ view db
  unfolding auth_authenticate_request load_session db_get_session
  auth_authenticate_request_keeps now db ctx =
      cookies (http_get_header ctx.request (codes "Cookie"))
    where
      admitted :
          (token : Bytes) (r : Conn × Option (ℕ × ℤ))
          → view r.0 ≡ view db
          → view (admit_session run now token ctx r).0 ≡ view db
      admitted token (c, none) e = e
      admitted token (c, some (id, expires)) e = elim (Bool-cases (leb_ℤ expires now)) [
        | inl late ↦ rw late (deleted_db c token ∙ e)
        | inr early ↦ rw early (named_db c id ∙ e)
      ]

      tokens : (o : Outcome Bytes) → view (with_token run now db ctx o).0 ≡ view db
      tokens (ok token) =
          admitted token (db_get_session run db token) (keeps db (select_session token))
      tokens failed = refl
      tokens stuck = refl

      cookies : (o : Option Bytes) → view (with_cookies run now db ctx o).0 ≡ view db
      cookies none = refl
      cookies (some header) = tokens (parse_cookie session_cookie 128 header)

  pub auth_handle_logout_keeps :
      (db : Conn) (ctx : Context) → view (auth_handle_logout run db ctx).0 ≡ view db
  unfolding auth_handle_logout
  auth_handle_logout_keeps db ctx = current ctx.session_token
    where
      cookie : (o : Outcome Bytes) → view (delete_cookie run db o) ≡ view db
      cookie (ok token) = deleted_db db token
      cookie failed = refl
      cookie stuck = refl

      from : (o : Option Bytes) → view (delete_from run db o) ≡ view db
      from none = refl
      from (some header) = cookie (parse_cookie session_cookie 128 header)

      current : (token : Bytes) → view (delete_current run db ctx.request token) ≡ view db
      current [] = from (http_get_header ctx.request (codes "Cookie"))
      current (c ∷ token) = deleted_db db (c ∷ token)

  module _ (pbkdf2 : Pbkdf2) (random : ℕ → Option Bytes) (now : ℤ) (max_age : ℕ) where
    open_session_keeps :
        (db : Conn) (id : ℕ) → view (open_session run pbkdf2 random now max_age db id).0 ≡ view db
    unfolding open_session db_purge_expired_sessions db_create_session
    open_session_keeps db id = go (auth_generate_session_token random 128)
      where
        go :
            (o : Option Bytes)
            → view (store_session run pbkdf2 random now max_age db id o).0 ≡ view db
        go none = refl
        go (some token) =
            keeps (run db (purge_sessions now)).0 (upsert_session token id (now +ℤ pos max_age))
            ∙ keeps db (purge_sessions now)

    pub auth_handle_login_keeps :
        (db : Conn) (ctx : Context)
        → view (auth_handle_login run pbkdf2 random now max_age db ctx).0 ≡ view db
    unfolding auth_handle_login db_get_user_credentials
    auth_handle_login_keeps db ctx = body (body_of ctx.request)
      where
        finished :
            (id : ℕ) (name : Bytes) (r : Conn × Opened)
            → view (logged_in run pbkdf2 random now max_age ctx id name r).0 ≡ view r.0
        finished id name (c, no_token) = refl
        finished id name (c, not_stored) = refl
        finished id name (c, opened token) = refl

        checked_password :
            (name password : Bytes) (r : Conn × Option (ℕ × Bytes × Bytes))
            → view r.0 ≡ view db
            → view (check_password run pbkdf2 random now max_age ctx name password r).0 ≡ view db
        checked_password name password (c, none) e = e
        checked_password name password (c, some (id, hash, salt)) e =
            decide (auth_verify_password pbkdf2 password salt hash hash_length)
          where
            decide :
                (b : Bool)
                → view
                    (if b
                      then logged_in run pbkdf2 random now max_age ctx id name
                          (open_session run pbkdf2 random now max_age c id)
                      else (c, fail ctx 401 (codes "Invalid credentials"))).0
                  ≡ view db
            decide true =
                finished id name (open_session run pbkdf2 random now max_age c id)
                ∙ (open_session_keeps c id ∙ e)
            decide false = e

        fields :
            (name password : Option Bytes)
            → view (log_in run pbkdf2 random now max_age db ctx name password).0 ≡ view db
        fields (some name) (some password) =
            checked_password name password _ (keeps db (select_credentials name))
        fields none password = refl
        fields (some name) none = refl

        body :
            (o : Option Bytes)
            → view (log_in_with run pbkdf2 random now max_age db ctx o).0 ≡ view db
        body none = refl
        body (some text) =
            fields (json_get_string text (codes "username") 128)
              (json_get_string text (codes "password") 128)

    pub auth_handle_register_keeps :
        (db : Conn) (ctx : Context)
        → view (auth_handle_register run pbkdf2 random now max_age db ctx).0 ≡ view db
    unfolding auth_handle_register db_create_user
    auth_handle_register_keeps db ctx = body ctx.request.body
      where
        finished :
            (id : ℕ) (name : Bytes) (r : Conn × Opened)
            → view (registered run pbkdf2 random now max_age ctx id name r).0 ≡ view r.0
        finished id name (c, no_token) = refl
        finished id name (c, not_stored) = refl
        finished id name (c, opened token) = refl

        made :
            (name : Bytes) (r : Conn × Created)
            → view r.0 ≡ view db
            → view (with_user run pbkdf2 random now max_age ctx name r).0 ≡ view db
        made name (c, duplicate) e = e
        made name (c, not_created) e = e
        made name (c, created id) e =
            finished id name (open_session run pbkdf2 random now max_age c id)
            ∙ (open_session_keeps c id ∙ e)

        hashed :
            (name : Bytes) (o : Option (Bytes × Bytes))
            → view (with_password run pbkdf2 random now max_age db ctx name o).0 ≡ view db
        hashed name none = refl
        hashed name (some (salt, hash)) = made name _ (keeps db (insert_user name hash salt))

        form : (f : Form) → view (with_form run pbkdf2 random now max_age db ctx f).0 ≡ view db
        form (rejected message) = refl
        form (accepted name password) =
            hashed name (auth_hash_password pbkdf2 random password salt_length hash_length)

        body :
            (o : Option Bytes)
            → view (with_body_of run pbkdf2 random now max_age db ctx o).0 ≡ view db
        body none = refl
        body (some text) = form (registration text)
