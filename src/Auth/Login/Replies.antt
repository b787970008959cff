-- ===== src/Auth/Login/Replies.antt =====
-- The responses of the handlers leave who is logged in as it was.
use ott_server.Base.{Bool-cases, Option, inl, inr, leb, length, none, refl, some, ℕ, ◌≡◌}
use ott_server.Cstr.{Bytes}
use ott_server.Router.{Context}
use ott_server.Router.Send.{
  combined_headers, error_body, fail, reply, router_send_json, router_send_json_error, send_with,
}

send_with_kept :
    (ctx : Context) (status : ℕ) (body : Bytes) (headers : Option Bytes)
    → ((send_with ctx status body headers).0.authenticated ≡ ctx.authenticated)
      × ((send_with ctx status body headers).0.user_id ≡ ctx.user_id)
send_with_kept ctx status body none = (refl, refl)
send_with_kept ctx status body (some headers) = (refl, refl)

pub reply_kept :
    (ctx : Context) (status : ℕ) (body : Bytes) (headers : Option Bytes)
    → ((reply ctx status body headers).authenticated ≡ ctx.authenticated)
      × ((reply ctx status body headers).user_id ≡ ctx.user_id)
unfolding router_send_json
reply_kept ctx status body headers =
    send_with_kept ctx status body (combined_headers ctx.security_headers headers)

pub fail_kept :
    (ctx : Context) (status : ℕ) (message : Bytes)
    → (fail ctx status message).authenticated ≡ ctx.authenticated
unfolding router_send_json_error
fail_kept ctx status message = elim (Bool-cases (leb 512 (length (error_body message)))) [
  | inl long ↦ rw (long, fail) refl
  | inr fits ↦ rw (fits, fail) (reply_kept ctx status (error_body message) none).0
]
