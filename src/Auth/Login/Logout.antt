-- ===== src/Auth/Login/Logout.antt =====
-- What a logout leaves.
use ott_server.Auth.Login.{
  auth_handle_logout, clear_session_cookie, delete_current, expired_cookie, sign_out,
}
use ott_server.Base.{Bool-cases, false, inl, inr, leb, length, none, refl, true, ℕ, ◌++◌, ◌∷◌, ◌≡◌}
use ott_server.Cstr.{Bytes, str_eq_refl}
use ott_server.Db.Accounts.{db_delete_session}
use ott_server.Db.Accounts.Laws.{db_delete_session_lem}
use ott_server.Db.Engine.{Answer, IsSqlite, Sql, find_session}
use ott_server.Db.Tables.{Tables}
use ott_server.Router.{Context}

clear_session_cookie_kept :
    (ctx : Context) → (clear_session_cookie ctx).authenticated ≡ ctx.authenticated
unfolding clear_session_cookie
clear_session_cookie_kept ctx =
    elim (Bool-cases (leb 1024 (length (ctx.security_headers ++ expired_cookie)))) [
      | inl long ↦ rw long refl
      | inr fits ↦ rw fits refl
    ]

module _ {Conn : Type 0} (run : Conn → Sql → Conn × Answer) (view : Conn → Tables) where
  -- Over an engine that does what SQL says or fails, a logout of a context with a session leaves the context unauthenticated, and no session of its
  -- token in the table if the deletion succeeds.
  pub auth_handle_logout_lem :
      (db : Conn) (ctx : Context) (c : ℕ) (token : Bytes) (db' : Conn)
      → IsSqlite run view
      → ctx.session_token ≡ c ∷ token
      → db_delete_session run db (c ∷ token) ≡ (db', true)
      → ((auth_handle_logout run db ctx).1.authenticated ≡ false)
        × (find_session (c ∷ token) (view (auth_handle_logout run db ctx).0).sessions ≡ none)
  unfolding auth_handle_logout
  auth_handle_logout_lem db ctx c token db' law held gone =
      let absent = db_delete_session_lem run view db (c ∷ token) db' (c ∷ token) law gone in
      (
        clear_session_cookie_kept (sign_out ctx),
        rw (held, delete_current, gone) (rw (str_eq_refl (c ∷ token)) at absent),
      )
