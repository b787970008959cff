-- ===== src/Auth/Login/Laws.antt =====
-- Who is logged in: a user whose password is verified, with a session in the table.
use ott_server.Auth.Login.{Opened, open_session, opened, store_session, stored_as}
use ott_server.Auth.Password.{
  Pbkdf2, auth_generate_session_token, auth_verify_password, hash_length,
}
use ott_server.Base.{
  Bool, Option, ap, arith, false, none, pos, refl, some, true, ℕ, ℤ, ◌+ℤ◌, ◌∙◌, ◌≡◌,
}
use ott_server.Cstr.{Bytes, str_eq_refl}
use ott_server.Db.Accounts.{db_create_session, db_purge_expired_sessions}
use ott_server.Db.Accounts.Laws.{db_create_session_lem}
use ott_server.Db.Engine.{Answer, IsSqlite, Sql, find_session, find_user}
use ott_server.Db.Tables.{Tables, User}
use ott_server.Router.{Context}

module _ {Conn : Type 0} (run : Conn → Sql → Conn × Answer) (view : Conn → Tables) (pbkdf2 : Pbkdf2)
    (random : ℕ → Option Bytes) (now : ℤ) (max_age : ℕ) where
  -- A session is opened for the user, and its row is in the table.
  pub open_session_lem :
      (db : Conn) (user_id : ℕ) (db' : Conn) (token : Bytes)
      → IsSqlite run view
      → open_session run pbkdf2 random now max_age db user_id ≡ (db', opened token)
      → (auth_generate_session_token random 128 ≡ some token)
        × (find_session token (view db').sessions
            ≡ some (record { token = token; user_id = user_id; expires_at = now +ℤ pos max_age }))
  unfolding open_session
  open_session_lem db user_id db' token law e = go (auth_generate_session_token random 128) refl e
    where
      purged : Conn
      purged = (db_purge_expired_sessions run db now).0

      stored :
          (t : Bytes) (result : Conn × Bool)
          → db_create_session run purged t user_id (now +ℤ pos max_age) ≡ result
          → ◌≡◌ {A = Conn × Opened} (result.0, stored_as t result.1) (db', opened token)
          → (t ≡ token)
            × (find_session token (view db').sessions
                ≡ some
                    (record { token = token; user_id = user_id; expires_at = now +ℤ pos max_age }))
      stored t (c, true) k h =
          let same : t ≡ token = ground arith in
          let conn = ap (λ r. r.0) h in
          let found =
            db_create_session_lem run view purged t user_id (now +ℤ pos max_age) c t law k in
          (same, rw (← same, ← conn) (rw (str_eq_refl t) at found))
      stored t (c, false) k h = absurd cc

      go :
          (t : Option Bytes)
          → auth_generate_session_token random 128 ≡ t
          → store_session run pbkdf2 random now max_age db user_id t ≡ (db', opened token)
          → (auth_generate_session_token random 128 ≡ some token)
            × (find_session token (view db').sessions
                ≡ some
                    (record { token = token; user_id = user_id; expires_at = now +ℤ pos max_age }))
      go none k h = absurd cc
      go (some t) k h =
          let (same, row) =
            stored t (db_create_session run purged t user_id (now +ℤ pos max_age)) refl h in
          (k ∙ ap some same, row)

  -- What a login proves: a user of the name that the body gives, the password that it gives
  -- verified against the stored hash, and a new session of this user in the table.
  abbrev pub IsLoggedIn : Conn → Bytes → Bytes → Conn → Context → Type 0
  IsLoggedIn db username password db' ctx' =
      (u : User) × (find_user username (view db).users ≡ some u)
      × (auth_verify_password pbkdf2 password u.salt u.password_hash hash_length ≡ true)
      × (ctx'.user_id ≡ u.id)
      × (token : Bytes) × (auth_generate_session_token random 128 ≡ some token)
      × (find_session token (view db').sessions
          ≡ some (record { token = token; user_id = u.id; expires_at = now +ℤ pos max_age }))
