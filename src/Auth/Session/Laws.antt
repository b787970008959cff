-- ===== src/Auth/Session/Laws.antt =====
-- Who is authenticated: the owner of an unexpired session in the table.
use mathlib.Core.Bool.{false≢true}
use ott_server.Auth.Cookie.{parse_cookie}
use ott_server.Auth.Session.{
  admit_session, auth_authenticate_request, load_session, named, session_cookie, with_cookies,
  with_token,
}
use ott_server.Auth.Session.Reliable.{admitted}
use ott_server.Base.{
  Bool-cases, Option, ap, false, inl, inr, leb_ℤ, none, refl, some, sym, true, ℕ, ℤ, ◌∙◌, ◌≡◌,
}
use ott_server.Cstr.{Bytes, codes, truncated}
use ott_server.Db.Accounts.{db_get_session, db_get_username_by_id}
use ott_server.Db.Accounts.Laws.{db_get_session_lem, db_get_username_by_id_lem}
use ott_server.Db.Engine.{Answer, IsSqlite, Sql, find_session}
use ott_server.Db.Tables.{Session, Tables}
use ott_server.Http.{http_get_header}
use ott_server.Http.Read.{Outcome, failed, ok, stuck}
use ott_server.Router.{Context}

module _ {Conn : Type 0} (run : Conn → Sql → Conn × Answer) (view : Conn → Tables) (now : ℤ) where
  named_kept :
      (ctx : Context) (name : Option Bytes)
      → ((named run now ctx name).authenticated ≡ ctx.authenticated)
        × ((named run now ctx name).user_id ≡ ctx.user_id)
  named_kept ctx none = (refl, refl)
  named_kept ctx (some name) = (refl, refl)

  -- What it means that a session of this token lets a request in.
  abbrev pub IsAdmitted : Conn → Bytes → Conn → Context → Type 0
  IsAdmitted db token db' ctx' =
      (view db' ≡ view db)
      × (s : Session) × (find_session token (view db).sessions ≡ some s)
      × (leb_ℤ s.expires_at now ≡ false)
      × (ctx'.authenticated ≡ true)
      × (ctx'.user_id ≡ s.user_id)

  admit_session_lem :
      (db : Conn) (token : Bytes) (ctx : Context) (found : Conn × Option (ℕ × ℤ)) (db' : Conn)
      (ctx' : Context)
      → IsSqlite run view
      → db_get_session run db token ≡ found
      → admit_session run now token ctx found ≡ (db', ctx', true)
      → IsAdmitted db token db' ctx'
  admit_session_lem db token ctx (c, none) db' ctx' law e h = absurd (false≢true (ap (λ r. r.2) h))
  admit_session_lem db token ctx (c, some (user_id, expires)) db' ctx' law e h =
      elim (Bool-cases (leb_ℤ expires now)) [
        | inl expired ↦ absurd (false≢true (ap (λ r. r.2) (rw expired at h)))
        | inr valid ↦
            let (same, s, row, owner, expiry) =
              db_get_session_lem run view db token c user_id expires law e in
            let kept = db_get_username_by_id_lem run view c user_id 64 law in
            let name = (db_get_username_by_id run c user_id 64).1 in
            let result = rw valid at h in
            (
              ap view (sym (ap (λ r. r.0) result)) ∙ kept ∙ same,
              s,
              row,
              rw expiry valid,
              ap (λ r. r.1.authenticated) (sym result) ∙ (named_kept (signed_in user_id) name).0,
              ap (λ r. r.1.user_id) (sym result)
                  ∙ (named_kept (signed_in user_id) name).1
                  ∙ sym owner,
            )
      ]
    where
      signed_in : ℕ → Context
      signed_in id = record ctx {
        authenticated = true;
        user_id = id;
        session_token = truncated 128 token;
      }

  -- Over an engine that does what SQL says or fails, a request that is authenticated has an ott_session cookie whose token is that of a session in
  -- the table which expires after now; the context then holds the user of this session, and the
  -- tables are as before.
  pub auth_authenticate_request_lem :
      (db : Conn) (ctx : Context) (db' : Conn) (ctx' : Context)
      → IsSqlite run view
      → auth_authenticate_request run now db ctx ≡ (db', ctx', true)
      → (header token : Bytes) × (http_get_header ctx.request (codes "Cookie") ≡ some header)
        × (parse_cookie session_cookie 128 header ≡ ok token)
        × IsAdmitted db token db' ctx'
  unfolding auth_authenticate_request
  auth_authenticate_request_lem db ctx db' ctx' law e =
      cookies (http_get_header ctx.request (codes "Cookie")) refl e
    where
      search :
          (header : Bytes) (found : Outcome Bytes)
          → parse_cookie session_cookie 128 header ≡ found
          → with_token run now db ctx found ≡ (db', ctx', true)
          → (token : Bytes) × (parse_cookie session_cookie 128 header ≡ ok token)
            × IsAdmitted db token db' ctx'
      search header (ok token) k h = (
        token,
        k,
        unfold load_session in
            admit_session_lem db token ctx (db_get_session run db token) db' ctx' law refl h,
      )
      search header failed k h = absurd (false≢true (ap (λ r. r.2) h))
      search header stuck k h = absurd (false≢true (ap (λ r. r.2) h))

      cookies :
          (header : Option Bytes)
          → http_get_header ctx.request (codes "Cookie") ≡ header
          → with_cookies run now db ctx header ≡ (db', ctx', true)
          → (h token : Bytes) × (http_get_header ctx.request (codes "Cookie") ≡ some h)
            × (parse_cookie session_cookie 128 h ≡ ok token)
            × IsAdmitted db token db' ctx'
      cookies none k h = absurd (false≢true (ap (λ r. r.2) h))
      cookies (some header) k h =
          let (token, parsed, admitted) =
            search header (parse_cookie session_cookie 128 header) refl h in
          (header, token, k, parsed, admitted)
