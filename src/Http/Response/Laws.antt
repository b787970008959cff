-- ===== src/Http/Response/Laws.antt =====
-- A response that is sent is a header and the body that the header announces.
use mathlib.Core.Option
use ott_server.Base.{
  >>=-eq-some, Bool, Option, [], ap, append-nil, append_assoc, arith, false, if◌then◌else◌, length,
  none, refl, some, sym, true, ℕ, ◌++◌, ◌∙◌, ◌∷◌, ◌≡◌,
}
use ott_server.Cstr.{Bytes}
use ott_server.Http.Read.{crlf}
use ott_server.Http.Response.{
  add_optional, add_part, close_header, http_send_response, response_header, send_both, send_built,
  status_lines, typed,
}
use ott_server.Http.Socket.{Client, send_all, send_all_lem}

-- The texts that a header is put together from, in order.
abbrev pub optional_text : Option Bytes → Bytes
optional_text none = []
optional_text (some s) = s

pub add_optional_lem :
    (header : Bytes) (part : Option Bytes) (out : Bytes)
    → add_optional header part ≡ some out
    → out ≡ header ++ optional_text part
add_optional_lem header none out e = ground (arith, append-nil header)
add_optional_lem header (some []) out e = ground (arith, append-nil header)
add_optional_lem header (some (c ∷ s)) out e = ground arith

optional_text_lem : (o : Option Bytes) → Option.get_or o [] ≡ optional_text o
optional_text_lem none = refl
optional_text_lem (some s) = refl

pub send_all_whole :
    (client : Client) (buf : Bytes) (client' : Client)
    → send_all client buf ≡ (client', true)
    → client'.received ≡ client.received ++ buf
send_all_whole client buf client' e =
    let (sent, rest, split, got, all) = send_all_lem client buf client' true e in
    got ∙ ap (◌++◌ client.received) (sym (split ∙ ap (◌++◌ sent) (all.0 refl) ∙ append-nil sent))

send_both_lem :
    (client : Client) (h body : Bytes) (client' : Client)
    → send_both client h body ≡ (client', true)
    → client'.received ≡ client.received ++ (h ++ body)
unfolding send_both
send_both_lem client h body client' e = go (send_all client h) refl e
  where
    go :
        (r : Client × Bool)
        → send_all client h ≡ r
        → (if r.1 then send_all r.0 body else (r.0, false)) ≡ (client', true)
        → client'.received ≡ client.received ++ (h ++ body)
    go (headed, true) first second =
        send_all_whole headed body client' second
        ∙ ap (λ x. x ++ body) (send_all_whole client h headed first)
        ∙ append_assoc client.received h body
    go (headed, false) first second = absurd (ground arith)

send_built_lem :
    (client : Client) (header : Option Bytes) (body : Bytes) (client' : Client)
    → send_built client header body ≡ (client', true)
    → (h : Bytes) × (header ≡ some h) × (client'.received ≡ client.received ++ (h ++ body))
send_built_lem client none body client' e = absurd (ground arith)
send_built_lem client (some h) body client' e = (h, refl, send_both_lem client h body client' e)

pub add_part_lem :
    (header part out : Bytes) → add_part header part ≡ some out → out ≡ header ++ part
add_part_lem header part out e = ground arith

pub close_header_lem : (header out : Bytes) → close_header header ≡ some out → out ≡ header ++ crlf
close_header_lem header out e = ground arith

response_header_lem :
    (status : ℕ) (status_text : Bytes) (content_type : Option Bytes) (size : ℕ)
    (extra_headers : Option Bytes) (h : Bytes)
    → response_header status status_text content_type size extra_headers ≡ some h
    → h
      ≡ status_lines status status_text size
        ++ (optional_text (typed content_type) ++ (optional_text extra_headers ++ crlf))
unfolding response_header
response_header_lem status status_text content_type size extra_headers h e =
    let (first, e1, r1) = >>=-eq-some (add_part [] (status_lines status status_text size)) _ e in
    let (second, e2, r2) = >>=-eq-some (add_optional first (typed content_type)) _ r1 in
    let (third, e3, r3) = >>=-eq-some (add_optional second extra_headers) _ r2 in
    rw
      (
        close_header_lem third h r3,
        add_optional_lem second extra_headers third e3,
        add_optional_lem first (typed content_type) second e2,
        add_part_lem [] (status_lines status status_text size) first e1,
      )
      (simp append_assoc)

-- A response is sent only whole: a status line with the reason, the length of the body, the content
-- type, the extra headers, an empty line and the body.
pub http_send_response_lem :
    (client : Client) (status : ℕ) (status_text : Bytes)
    (content_type body extra_headers : Option Bytes) (client' : Client)
    → http_send_response client status status_text content_type body extra_headers ≡ (client', true)
    → client'.received
      ≡ client.received
        ++ (status_lines status status_text (length (optional_text body))
            ++ (optional_text (typed content_type)
                ++ (optional_text extra_headers ++ (crlf ++ optional_text body))))
unfolding http_send_response
http_send_response_lem client status status_text content_type body extra_headers client' e =
    let payload = Option.get_or body [] in
    let (h, e1, e2) = send_built_lem client _ payload client' e in
    let text =
      response_header_lem status status_text content_type (length payload) extra_headers h e1 in
    e2 ∙ rw (text, optional_text_lem body) (simp append_assoc)
