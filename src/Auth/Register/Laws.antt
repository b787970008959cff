-- ===== src/Auth/Register/Laws.antt =====
-- Who is registered: a valid and free name with a password that was typed twice.
use mathlib.Core.Bool.{false≢true}
use ott_server.Auth.Login.{
  Opened, cookie_header, no_token, not_stored, open_session, opened, sign_in, user_body,
}
use ott_server.Auth.Login.Laws.{open_session_lem}
use ott_server.Auth.Login.Replies.{fail_kept, reply_kept}
use ott_server.Auth.Names.{is_valid_username, trim_whitespace}
use ott_server.Auth.Password.{
  Pbkdf2, auth_generate_session_token, auth_hash_password, hash_length, salt_length,
}
use ott_server.Auth.Register.{
  Form, accepted, auth_handle_register, check_form, fields, registered, registration, rejected,
  with_body_of, with_form, with_password, with_user,
}
use ott_server.Base.{
  Bool-cases, Option, ap, arith, false, inl, inr, length, ltb, ltb-false→le, none, pos, refl, some,
  sym, true, ℕ, ℤ, ◌+ℤ◌, ◌∙◌, ◌≡◌, ◌≤◌,
}
use ott_server.Cstr.{Bytes, codes, str_eq, str_eq_iff}
use ott_server.Db.Accounts.{Created, created, db_create_user, duplicate, not_created}
use ott_server.Db.Accounts.Laws.{db_create_user_lem}
use ott_server.Db.Engine.{Answer, IsSqlite, Sql, find_session, find_user}
use ott_server.Db.Tables.{Tables}
use ott_server.Router.{Context}
use ott_server.Router.Send.{fail}
use ott_server.Utils.Json.{json_get_string}

-- A form that is accepted.
registration_lem :
    (username password confirm name pass : Bytes)
    → check_form username password confirm ≡ accepted name pass
    → (name ≡ username)
      × (pass ≡ password)
      × (is_valid_username name ≡ true)
      × (8 ≤ length pass)
      × (password ≡ confirm)
registration_lem username password confirm name pass e =
    elim (Bool-cases (is_valid_username username)) [
      | inr bad ↦ absurd (cc (rw bad at e))
      | inl good ↦ elim (Bool-cases (ltb (length password) 8)) [
        | inl short ↦ absurd (cc (rw (good, short) at e))
        | inr long ↦ elim (Bool-cases (str_eq password confirm)) [
          | inr differ ↦ absurd (cc (rw (good, long, differ) at e))
          | inl same ↦
              let form : accepted username password ≡ accepted name pass =
                rw (good, long, same) at e in
              let names : username ≡ name = ground arith in
              let words : password ≡ pass = ground arith in
              (
                sym names,
                sym words,
                rw (← names) good,
                rw (← words) (ltb-false→le (length password) 8 long),
                (str_eq_iff password confirm).0 same,
              )
        ]
      ]
    ]

module _ {Conn : Type 0} (run : Conn → Sql → Conn × Answer) (view : Conn → Tables) (pbkdf2 : Pbkdf2)
    (random : ℕ → Option Bytes) (now : ℤ) (max_age : ℕ) where
  -- What a registration proves of the tables before and after, and of the context.
  abbrev pub IsRegistered : Conn → Bytes → Conn → Context → Type 0
  IsRegistered db name db' ctx' =
      (find_user name (view db).users ≡ none)
      × (ctx'.user_id ≡ (view db).next_user)
      × (token : Bytes) × (auth_generate_session_token random 128 ≡ some token)
      × (find_session token (view db').sessions
          ≡ some (record {
            token = token;
            user_id = (view db).next_user;
            expires_at = now +ℤ pos max_age;
          }))

  -- No response makes a context authenticated.
  fail_out :
      {A : Type 0} (db db' : Conn) (ctx ctx' : Context) (status : ℕ) (message : Bytes)
      → ctx.authenticated ≡ false
      → ◌≡◌ {A = Conn × Context} (db, fail ctx status message) (db', ctx')
      → ctx'.authenticated ≡ true
      → A
  fail_out db db' ctx ctx' status message out h inside = absurd (
      false≢true
        (sym (fail_kept ctx status message ∙ out) ∙ ap (λ r. r.1.authenticated) h ∙ inside))

  registered_lem :
      (ctx : Context) (id : ℕ) (name : Bytes) (c : Conn) (session : Conn × Opened) (db' : Conn)
      (ctx' : Context)
      → IsSqlite run view
      → ctx.authenticated ≡ false
      → open_session run pbkdf2 random now max_age c id ≡ session
      → registered run pbkdf2 random now max_age ctx id name session ≡ (db', ctx')
      → ctx'.authenticated ≡ true
      → (ctx'.user_id ≡ id)
        × (token : Bytes) × (auth_generate_session_token random 128 ≡ some token)
        × (find_session token (view db').sessions
            ≡ some (record { token = token; user_id = id; expires_at = now +ℤ pos max_age }))
  registered_lem ctx id name c (d, no_token) db' ctx' law out k h inside =
      fail_out d db' ctx ctx' 500 (codes "Failed to create session") out h inside
  registered_lem ctx id name c (d, not_stored) db' ctx' law out k h inside =
      fail_out d db' ctx ctx' 500 (codes "Unable to persist session") out h inside
  registered_lem ctx id name c (d, opened token) db' ctx' law out k h inside =
      let conn = ap (λ r. r.0) h in
      let (issued, row) = open_session_lem run view pbkdf2 random now max_age c id d token law k in
      (
        ap (λ r. r.1.user_id) (sym h)
            ∙ (reply_kept (sign_in ctx id name token) 201 (user_body name id)
                (some (cookie_header token max_age))).1,
        token,
        issued,
        rw (← conn) row,
      )

  with_user_lem :
      (db : Conn) (ctx : Context) (name hash salt : Bytes) (issued : Conn × Created) (db' : Conn)
      (ctx' : Context)
      → IsSqlite run view
      → ctx.authenticated ≡ false
      → db_create_user run db name hash salt ≡ issued
      → with_user run pbkdf2 random now max_age ctx name issued ≡ (db', ctx')
      → ctx'.authenticated ≡ true
      → IsRegistered db name db' ctx'
  with_user_lem db ctx name hash salt (c, duplicate) db' ctx' law out k h inside =
      fail_out c db' ctx ctx' 409 (codes "Username already exists") out h inside
  with_user_lem db ctx name hash salt (c, not_created) db' ctx' law out k h inside =
      fail_out c db' ctx ctx' 500 (codes "Unable to create account") out h inside
  with_user_lem db ctx name hash salt (c, created id) db' ctx' law out k h inside =
      let (free, next, _) = db_create_user_lem run view db name hash salt c id law k in
      let (owner, token, issued, row) =
        registered_lem ctx id name c (open_session run pbkdf2 random now max_age c id) db' ctx' law
          out refl h inside in
      (free, owner ∙ next, token, issued, rw (← next) row)

  with_password_lem :
      (db : Conn) (ctx : Context) (name : Bytes) (hashed : Option (Bytes × Bytes)) (db' : Conn)
      (ctx' : Context)
      → IsSqlite run view
      → ctx.authenticated ≡ false
      → with_password run pbkdf2 random now max_age db ctx name hashed ≡ (db', ctx')
      → ctx'.authenticated ≡ true
      → IsRegistered db name db' ctx'
  with_password_lem db ctx name none db' ctx' law out h inside =
      fail_out db db' ctx ctx' 500 (codes "Failed to secure password") out h inside
  with_password_lem db ctx name (some (salt, hash)) db' ctx' law out h inside =
      with_user_lem db ctx name hash salt (db_create_user run db name hash salt) db' ctx' law out
        refl h inside

  -- Over an engine that does what SQL says or fails, and from a context that is not authenticated:
  -- a registration that ends authenticated had a body whose fields make an accepted form, with a
  -- valid name and a password of at least 8 bytes; no user had the name, and the context and the new session in the table hold the next free id.
  pub auth_handle_register_lem :
      (db : Conn) (ctx : Context) (db' : Conn) (ctx' : Context)
      → IsSqlite run view
      → ctx.authenticated ≡ false
      → auth_handle_register run pbkdf2 random now max_age db ctx ≡ (db', ctx')
      → ctx'.authenticated ≡ true
      → (body name password : Bytes) × (ctx.request.body ≡ some body)
        × (registration body ≡ accepted name password)
        × (is_valid_username name ≡ true)
        × (8 ≤ length password)
        × IsRegistered db name db' ctx'
  unfolding auth_handle_register
  auth_handle_register_lem db ctx db' ctx' law out h inside = go ctx.request.body refl h
    where
      filled :
          (username password confirm : Option Bytes) (name pass : Bytes)
          → fields username password confirm ≡ accepted name pass
          → (is_valid_username name ≡ true) × (8 ≤ length pass)
      filled (some u) (some p) (some c) name pass e =
          let (_, _, good, long, _) = registration_lem (trim_whitespace u) p c name pass e in
          (good, long)
      filled none p c name pass e = absurd cc
      filled (some u) none c name pass e = absurd cc
      filled (some u) (some p) none name pass e = absurd cc

      formed :
          (b : Bytes) (form : Form)
          → registration b ≡ form
          → with_form run pbkdf2 random now max_age db ctx form ≡ (db', ctx')
          → (name password : Bytes) × (registration b ≡ accepted name password)
            × (is_valid_username name ≡ true)
            × (8 ≤ length password)
            × IsRegistered db name db' ctx'
      formed b (rejected message) k e = fail_out db db' ctx ctx' 400 message out e inside
      formed b (accepted name password) k e =
          let (good, long) =
            filled (json_get_string b (codes "username") 33)
              (json_get_string b (codes "password") 128)
              (json_get_string b (codes "confirmPassword") 128) name password
              (unfold registration in k) in
          (
            name,
            password,
            k,
            good,
            long,
            with_password_lem db ctx name
                (auth_hash_password pbkdf2 random password salt_length hash_length) db' ctx' law out
                e inside,
          )

      go :
          (body : Option Bytes)
          → ctx.request.body ≡ body
          → with_body_of run pbkdf2 random now max_age db ctx body ≡ (db', ctx')
          → (b name password : Bytes) × (ctx.request.body ≡ some b)
            × (registration b ≡ accepted name password)
            × (is_valid_username name ≡ true)
            × (8 ≤ length password)
            × IsRegistered db name db' ctx'
      go none k e = fail_out db db' ctx ctx' 400 (codes "Invalid payload") out e inside
      go (some b) k e =
          let (name, password, form, good, long, kept) = formed b (registration b) refl e in
          (b, name, password, k, form, good, long, kept)
