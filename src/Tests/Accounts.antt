-- ===== src/Tests/Accounts.antt =====
-- server/src/auth.c and db.c over an engine that never fails.
use ott_server.Auth.Cookie.{cookie_loop, drop_separators, parse_cookie}
use ott_server.Auth.Login.{
  auth_handle_login, auth_handle_logout, cookie_header, open_session, user_body,
}
use ott_server.Auth.Login.Logout.{auth_handle_logout_lem}
use ott_server.Auth.Names.{all_name_bytes, is_valid_username, trim_end, trim_whitespace}
use ott_server.Auth.Password.{Pbkdf2, auth_generate_session_token, auth_hash_password}
use ott_server.Auth.Register.{accepted, auth_handle_register, registration}
use ott_server.Auth.Register.Laws.{IsRegistered, auth_handle_register_lem}
use ott_server.Auth.Session.{auth_authenticate_request, load_session, session_cookie}
use ott_server.Auth.Session.Laws.{IsAdmitted, auth_authenticate_request_lem}
use ott_server.Auth.Session.Reliable.{IsLetIn, admitted, auth_authenticate_request_reliable}
use ott_server.Base.{
  Option, [], false, inr, length, none, pos, refl, some, suc, true, zero, ℕ, ◌++◌, ◌∷◌, ◌≡◌, ◌≤◌,
}
use ott_server.Cstr.{
  Bytes, codes, decimal, digits_onto, drop_spaces, split_at, split_on, starts_with, str_case_eq,
  str_eq,
}
use ott_server.Db.Accounts.{
  db_create_session, db_create_user, db_delete_session, db_get_session, db_get_username_by_id,
  db_purge_expired_sessions,
}
use ott_server.Db.Engine.{
  Answer, IsSqlite, Sql, find_id, find_session, find_user, meaning, put_session, unexpired,
  without_session,
}
use ott_server.Db.Tables.{Session, Tables, User}
use ott_server.Http.{Request, find_header, http_get_header, http_status_text, request_init}
use ott_server.Http.Read.{ok}
use ott_server.Http.Response.{
  content_type_line, http_send_response, response_header, send_both, status_lines,
}
use ott_server.Http.Socket.{send_all, send_loop}
use ott_server.Router.{Context}
use ott_server.Router.Send.{combined_headers, router_send_json}
use ott_server.Tests.Utils.{chunks}
use ott_server.Utils.Base64.{
  base64url_encode, digit, encode_loop, encode_three, encode_two, strip_padding,
}
use ott_server.Utils.Json.{
  json_get_string, key_pattern, quoted_value, read_json_string, skip_separators,
}

abbrev engine : Tables → Sql → Tables × Answer
engine t s = meaning t s

engine-IsSqlite : IsSqlite engine (λ t. t)
engine-IsSqlite = λ c s. inr (refl, refl)

-- A toy hash, and random bytes that are all zero.
abbrev pbkdf2 : Pbkdf2
pbkdf2 password salt n = some (password ++ salt)

abbrev zeros : ℕ → Bytes
zeros zero = []
zeros (suc n) = 0 ∷ zeros n

abbrev random : ℕ → Option Bytes
random n = some (zeros n)

abbrev ann : User
ann = record { id = 7; username = codes "ann"; password_hash = codes "secret!s"; salt = codes "s" }

abbrev ann_session : Session
ann_session = record { token = codes "tok"; user_id = 7; expires_at = pos 100 }

abbrev tables : Tables
tables = record { users = ann ∷ []; next_user = 8; sessions = ann_session ∷ [] }

abbrev context_of : Request → Context
context_of req = record {
  security_headers = [];
  client = record { received = []; accepts = []; transfer = chunks };
  request = req;
  authenticated = false;
  user_id = 0;
  username = [];
  session_token = [];
  params = [];
}

abbrev cookie_request : Request
cookie_request = record request_init {
  headers = record { name = codes "cookie"; value = codes "ott_session=tok"; generation = 0 } ∷ [];
}

abbrev ann_context : Context
ann_context = record (context_of cookie_request) {
  authenticated = true;
  user_id = 7;
  username = codes "ann";
  session_token = codes "tok";
}

let_in :
    auth_authenticate_request engine (pos 99) tables (context_of cookie_request)
    ≡ (tables, ann_context, true)
unfolding auth_authenticate_request load_session db_get_session db_get_username_by_id meaning
    find_session find_id http_get_header find_header str_case_eq str_eq parse_cookie cookie_loop
    drop_separators split_at trim_end
let_in = refl

auth_authenticate_request_lem_example :
    (header token : Bytes) × (http_get_header cookie_request (codes "Cookie") ≡ some header)
    × (parse_cookie session_cookie 128 header ≡ ok token)
    × IsAdmitted engine (λ t. t) (pos 99) tables token tables ann_context
auth_authenticate_request_lem_example =
    auth_authenticate_request_lem engine (λ t. t) (pos 99) tables (context_of cookie_request) tables
      ann_context engine-IsSqlite let_in

abbrev no_sessions : Tables
no_sessions = record { users = ann ∷ []; next_user = 8; sessions = [] }

-- At its expiry the session is refused, and deleted.
refused_at_expiry :
    auth_authenticate_request engine (pos 100) tables (context_of cookie_request)
    ≡ (no_sessions, context_of cookie_request, false)
unfolding auth_authenticate_request load_session db_get_session db_delete_session meaning
    find_session without_session http_get_header find_header str_case_eq str_eq parse_cookie
    cookie_loop drop_separators split_at trim_end
refused_at_expiry = refl

new_session : db_create_session engine no_sessions (codes "tok") 7 (pos 100) ≡ (tables, true)
unfolding db_create_session meaning find_id put_session
new_session = refl

deleted_session : db_delete_session engine tables (codes "tok") ≡ (no_sessions, true)
unfolding db_delete_session meaning without_session str_eq
deleted_session = refl

auth_handle_logout_lem_example :
    ((auth_handle_logout engine tables ann_context).1.authenticated ≡ false)
    × (find_session (codes "tok") (auth_handle_logout engine tables ann_context).0.sessions ≡ none)
auth_handle_logout_lem_example =
    auth_handle_logout_lem engine (λ t. t) tables ann_context b't' (codes "ok") no_sessions
      engine-IsSqlite refl deleted_session

abbrev login_body : Bytes
login_body = codes "{\"username\":\"ann\",\"password\":\"secret!\"}"

abbrev login_request : Request
login_request = record request_init { body = some login_body; body_length = length login_body }

abbrev after_login : Tables × Context
after_login =
    auth_handle_login engine pbkdf2 random (pos 99) 3600 no_sessions (context_of login_request)

cookie_header_sent :
    http_get_header cookie_request (codes "Cookie") ≡ some (codes "ott_session=tok")
unfolding http_get_header find_header str_case_eq str_eq
cookie_header_sent = refl

cookie_parsed : parse_cookie session_cookie 128 (codes "ott_session=tok") ≡ ok (codes "tok")
unfolding parse_cookie cookie_loop drop_separators split_at str_eq trim_end
cookie_parsed = refl

auth_authenticate_request_reliable_example :
    IsLetIn
      (context_of cookie_request)
      (auth_authenticate_request engine (pos 99) tables (context_of cookie_request)).1
      (auth_authenticate_request engine (pos 99) tables (context_of cookie_request)).2
      (admitted (pos 99) (find_session (codes "tok") tables.sessions))
auth_authenticate_request_reliable_example =
    auth_authenticate_request_reliable engine (λ t. t) (pos 99) tables (context_of cookie_request)
      (codes "ott_session=tok") (codes "tok") (λ c s. (refl, refl)) cookie_header_sent cookie_parsed

abbrev register_body : Bytes
register_body =
    codes "{\"username\":\" bob \",\"password\":\"password\",\"confirmPassword\":\"password\"}"

abbrev register_request : Request
register_request = record request_init {
  body = some register_body;
  body_length = length register_body;
}

abbrev after_register : Tables × Context
after_register =
    auth_handle_register engine pbkdf2 random (pos 99) 3600 tables (context_of register_request)

register_authenticated : after_register.1.authenticated ≡ true
unfolding auth_handle_register registration trim_whitespace trim_end drop_spaces is_valid_username
    all_name_bytes auth_hash_password db_create_user open_session db_purge_expired_sessions
    db_create_session meaning find_user find_id unexpired put_session str_eq
    auth_generate_session_token base64url_encode encode_loop encode_three encode_two digit
    strip_padding json_get_string key_pattern split_on starts_with skip_separators quoted_value
    read_json_string router_send_json combined_headers http_send_response response_header send_both
    send_all send_loop cookie_header user_body decimal digits_onto status_lines content_type_line
    http_status_text
register_authenticated = refl

auth_handle_register_lem_example :
    (body name password : Bytes) × (register_request.body ≡ some body)
    × (registration body ≡ accepted name password)
    × (is_valid_username name ≡ true)
    × (8 ≤ length password)
    × IsRegistered engine
        (λ t. t)
        pbkdf2
        random
        (pos 99)
        3600
        tables
        name
        after_register.0
        after_register.1
auth_handle_register_lem_example =
    auth_handle_register_lem engine (λ t. t) pbkdf2 random (pos 99) 3600 tables
      (context_of register_request) after_register.0 after_register.1 engine-IsSqlite refl refl
      register_authenticated
