-- ===== src/Auth/Register.antt =====
-- server/src/auth.c: the handler of register, and the default users.
pub mod Laws
use ott_server.Auth.Login.{
  Opened, cookie_header, no_token, not_stored, open_session, opened, sign_in, user_body,
}
use ott_server.Auth.Names.{is_valid_username, trim_whitespace}
use ott_server.Auth.Password.{Pbkdf2, auth_hash_password, hash_length, salt_length}
use ott_server.Base.{List, Option, [], if◌then◌else◌, length, ltb, none, not, some, ℕ, ℤ, ◌∷◌}
use ott_server.Cstr.{Bytes, codes, str_eq}
use ott_server.Db.Accounts.{
  Created, created, db_create_user, db_get_user_credentials, db_purge_expired_sessions,
  db_upsert_user, duplicate, not_created,
}
use ott_server.Db.Engine.{Answer, Sql}
use ott_server.Router.{Context}
use ott_server.Router.Send.{fail, reply}
use ott_server.Utils.Json.{json_get_string}

-- What a registration asks for, if it is valid; or the message of the response 400.
pub data Form : Type 0 where
  accepted : Bytes → Bytes → Form
  rejected : Bytes → Form

abbrev pub check_form : Bytes → Bytes → Bytes → Form
check_form username password confirm =
    if not (is_valid_username username)
    then rejected (codes "Username must be 3-32 characters (letters, numbers, ., -, _)")
    else if ltb (length password) 8
    then rejected (codes "Password must be at least 8 characters")
    else if str_eq password confirm
    then accepted username password
    else rejected (codes "Passwords do not match")

abbrev pub fields : Option Bytes → Option Bytes → Option Bytes → Form
fields (some username) (some password) (some confirm) =
    check_form (trim_whitespace username) password confirm
fields _ _ _ = rejected (codes "Missing fields")

unfoldable pub registration : Bytes → Form
registration body =
    fields (json_get_string body (codes "username") 33)
      (json_get_string body (codes "password") 128)
      (json_get_string body (codes "confirmPassword") 128)

module _ {Conn : Type 0} (run : Conn → Sql → Conn × Answer) (pbkdf2 : Pbkdf2)
    (random : ℕ → Option Bytes) (now : ℤ) (max_age : ℕ) where
  abbrev pub registered : Context → ℕ → Bytes → Conn × Opened → Conn × Context
  registered ctx user_id username (db, no_token) =
      (db, fail ctx 500 (codes "Failed to create session"))
  registered ctx user_id username (db, not_stored) =
      (db, fail ctx 500 (codes "Unable to persist session"))
  registered ctx user_id username (db, opened token) = (
    db,
    reply (sign_in ctx user_id username token) 201 (user_body username user_id)
        (some (cookie_header token max_age)),
  )

  abbrev pub with_user : Context → Bytes → Conn × Created → Conn × Context
  with_user ctx username (db, duplicate) = (db, fail ctx 409 (codes "Username already exists"))
  with_user ctx username (db, not_created) = (db, fail ctx 500 (codes "Unable to create account"))
  with_user ctx username (db, created id) =
      registered ctx id username (open_session run pbkdf2 random now max_age db id)

  abbrev pub with_password : Conn → Context → Bytes → Option (Bytes × Bytes) → Conn × Context
  with_password db ctx username none = (db, fail ctx 500 (codes "Failed to secure password"))
  with_password db ctx username (some (salt, hash)) =
      with_user ctx username (db_create_user run db username hash salt)

  abbrev pub with_form : Conn → Context → Form → Conn × Context
  with_form db ctx (rejected message) = (db, fail ctx 400 message)
  with_form db ctx (accepted username password) =
      with_password db ctx username
        (auth_hash_password pbkdf2 random password salt_length hash_length)

  abbrev pub with_body_of : Conn → Context → Option Bytes → Conn × Context
  with_body_of db ctx none = (db, fail ctx 400 (codes "Invalid payload"))
  with_body_of db ctx (some body) = with_form db ctx (registration body)

  unfoldable pub auth_handle_register : Conn → Context → Conn × Context
  auth_handle_register db ctx = with_body_of db ctx ctx.request.body

-- `salts name` is what RAND_bytes gives when the salt of this user is drawn.
module _ {Conn : Type 0} (run : Conn → Sql → Conn × Answer) (pbkdf2 : Pbkdf2)
    (salts : Bytes → ℕ → Option Bytes) (now : ℤ) where
  -- `ensure_default_users`: a user who has credentials is left alone.
  abbrev pub upsert_default : Conn → Bytes → Option (Bytes × Bytes) → Conn
  upsert_default db username none = db
  upsert_default db username (some (salt, hash)) = (db_upsert_user run db username hash salt).0

  abbrev pub ensure_user : Bytes → Bytes → Conn × Option (ℕ × Bytes × Bytes) → Conn
  ensure_user username password (db, some credentials) = db
  ensure_user username password (db, none) =
      upsert_default db username
        (auth_hash_password pbkdf2 (salts username) password salt_length hash_length)

  unfoldable pub ensure_users : Conn → List (Bytes × Bytes) → Conn
  ensure_users db [] = db
  ensure_users db (user ∷ users) =
      ensure_users
        (ensure_user user.0 user.1 (db_get_user_credentials run db user.0 hash_length salt_length))
        users

  abbrev pub default_users : List (Bytes × Bytes)
  default_users =
      (codes "test", codes "test1234")
      ∷ (codes "demo", codes "demo1234")
      ∷ (codes "guest", codes "guestpass")
      ∷ (codes "sample", codes "sample1234")
      ∷ []

  unfoldable pub auth_initialize : Conn → Conn
  unfolding ensure_users
  auth_initialize db = (db_purge_expired_sessions run (ensure_users db default_users) now).0
