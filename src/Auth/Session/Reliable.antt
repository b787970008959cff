-- ===== src/Auth/Session/Reliable.antt =====
-- The decision of `auth_authenticate_request` over an engine that does not fail.
use ott_server.Auth.Cookie.{parse_cookie}
use ott_server.Auth.Session.{
  admit_session, auth_authenticate_request, load_session, named, session_cookie,
}
use ott_server.Base.{
  Bool, Bool-cases, Option, ap, false, if◌then◌else◌, inl, inr, leb_ℤ, none, refl, some, true, ℕ, ℤ,
  ◌≡◌,
}
use ott_server.Cstr.{Bytes, codes, truncated}
use ott_server.Db.Accounts.{db_get_session, db_get_username_by_id, session_of}
use ott_server.Db.Engine.{Answer, Sql, find_session, meaning, select_session, session_answer}
use ott_server.Db.Tables.{Session, Tables}
use ott_server.Http.{http_get_header}
use ott_server.Http.Read.{ok}
use ott_server.Router.{Context}

-- Every statement does what SQL says.
abbrev pub IsReliable : {Conn : Type 0} → (Conn → Sql → Conn × Answer) → (Conn → Tables) → Type 0
IsReliable {Conn} run view =
    (c : Conn) (s : Sql)
    → (view (run c s).0 ≡ (meaning (view c) s).0) × ((run c s).1 ≡ (meaning (view c) s).1)

-- Whether a session in the table lets a request in at this time, and as whom.
abbrev pub admitted : ℤ → Option Session → Option ℕ
admitted now none = none
admitted now (some s) = if leb_ℤ s.expires_at now then none else some s.user_id

-- Whether the context and the result are those of a user who is let in, or of nobody: then the
-- context is the one before.
abbrev pub IsLetIn : Context → Context → Bool → Option ℕ → Type 0
IsLetIn before ctx result none = (result ≡ false) × (ctx ≡ before)
IsLetIn before ctx result (some user_id) =
    (result ≡ true) × (ctx.authenticated ≡ true) × (ctx.user_id ≡ user_id)

module _ {Conn : Type 0} (run : Conn → Sql → Conn × Answer) (view : Conn → Tables) (now : ℤ) where
  db_get_session_reliable :
      (db : Conn) (token : Bytes)
      → IsReliable run view
      → (db_get_session run db token).1
        ≡ session_of (session_answer (find_session token (view db).sessions))
  unfolding db_get_session meaning
  db_get_session_reliable db token law = ap session_of (law db (select_session token)).1

  named_user :
      (ctx : Context) (name : Option Bytes)
      → ctx.authenticated ≡ true
      → IsLetIn ctx (named run now ctx name) true (some ctx.user_id)
  named_user ctx none user = (refl, user, refl)
  named_user ctx (some name) user = (refl, user, refl)

  admit_session_reliable :
      (token : Bytes) (ctx : Context) (db : Conn) (row : Option Session)
      → let r = admit_session run now token ctx (db, session_of (session_answer row)) in
        IsLetIn ctx r.1 r.2 (admitted now row)
  admit_session_reliable token ctx db none = (refl, refl)
  admit_session_reliable token ctx db (some s) = elim (Bool-cases (leb_ℤ s.expires_at now)) [
    | inl expired ↦ rw expired (refl, refl)
    | inr fresh ↦ rw fresh (
        named_user
          (record ctx {
            authenticated = true;
            user_id = s.user_id;
            session_token = truncated 128 token;
          })
          (db_get_username_by_id run db s.user_id 64).1 refl)
  ]

  -- Over an engine that does what SQL says, a request whose cookie holds a token is let in exactly if
  -- the table has a session of this token that expires after now: the function then returns success,
  -- and the context is authenticated as the user of the session. Otherwise it reports that nobody is
  -- logged in, and the context stays as it was.
  pub auth_authenticate_request_reliable :
      (db : Conn) (ctx : Context) (header token : Bytes)
      → IsReliable run view
      → http_get_header ctx.request (codes "Cookie") ≡ some header
      → parse_cookie session_cookie 128 header ≡ ok token
      → IsLetIn ctx
          (auth_authenticate_request run now db ctx).1
          (auth_authenticate_request run now db ctx).2
          (admitted now (find_session token (view db).sessions))
  unfolding auth_authenticate_request load_session
  auth_authenticate_request_reliable db ctx header token law sent parsed =
      rw (sent, parsed) (go (db_get_session run db token) (db_get_session_reliable db token law))
    where
      go :
          (found : Conn × Option (ℕ × ℤ))
          → found.1 ≡ session_of (session_answer (find_session token (view db).sessions))
          → IsLetIn ctx
              (admit_session run now token ctx found).1
              (admit_session run now token ctx found).2
              (admitted now (find_session token (view db).sessions))
      go (c, o) e =
          rw e (admit_session_reliable token ctx c (find_session token (view db).sessions))
