-- ===== src/Http/Response/Files.antt =====
-- A file response that is sent is a header and exactly the bytes that the header announces.
use mathlib.Core.Option
use ott_server.Base.{
  >>=-eq-some, Bool-cases, Option, [], ap, append_assoc, arith, drop, inl, inr, length, length-drop,
  length-take, ltb, ltb-false→le, min, none, refl, some, sym, take, take-append-drop, true, ℕ, ◌++◌,
  ◌+◌, ◌-◌, ◌<◌, ◌∙◌, ◌≡◌, ◌≤◌,
}
use ott_server.Cstr.{Bytes, codes}
use ott_server.Http.Read.{crlf}
use ott_server.Http.Response.{
  Files, add_optional, add_part, clamp_length, content_type_line, file_header,
  http_send_file_response, send_contents, status_lines,
}
use ott_server.Http.Response.Laws.{add_optional_lem, add_part_lem, close_header_lem, optional_text}
use ott_server.Http.Response.Transfer.{drop_all, send_headed_lem, slice}
use ott_server.Http.Socket.{Client}

clamp_length_bound :
    (file_size offset size : ℕ)
    → offset ≤ file_size
    → clamp_length file_size offset size ≤ file_size - offset
clamp_length_bound file_size offset size h = ground arith

length-slice :
    (contents : Bytes) (offset size : ℕ)
    → offset ≤ length contents
    → length (slice contents offset (clamp_length (length contents) offset size))
      ≡ clamp_length (length contents) offset size
length-slice contents offset size h = omega (
  arith,
  length-take (clamp_length (length contents) offset size) (drop offset contents),
  length-drop offset contents,
  clamp_length_bound (length contents) offset size h,
)

file_header_lem :
    (status : ℕ) (status_text : Bytes) (content_type : Option Bytes) (size : ℕ)
    (extra_headers : Option Bytes) (h : Bytes)
    → file_header status status_text content_type size extra_headers ≡ some h
    → h
      ≡ status_lines status status_text size
        ++ (content_type_line (Option.get_or content_type (codes "application/octet-stream"))
            ++ (optional_text extra_headers ++ crlf))
unfolding file_header
file_header_lem status status_text content_type size extra_headers h e =
    let text =
      status_lines status status_text size
      ++ content_type_line (Option.get_or content_type (codes "application/octet-stream")) in
    let (first, e1, r1) = >>=-eq-some (add_part [] text) _ e in
    let (second, e2, r2) = >>=-eq-some (add_optional first extra_headers) _ r1 in
    rw
      (
        close_header_lem second h r2,
        add_optional_lem first extra_headers second e2,
        add_part_lem [] text first e1,
      )
      (simp append_assoc)

-- What is asked for, or what there is.
clamp_length-all : (size offset : ℕ) → clamp_length size offset 0 ≡ size - offset
clamp_length-all size offset = ground arith

clamp_length-min :
    (file_size offset size : ℕ)
    → 0 < size
    → clamp_length file_size offset size ≡ min size (file_size - offset)
clamp_length-min file_size offset size h = ground arith

-- What a client that got a whole file response has received: the header with the length of the
-- part of the file, and that part.
abbrev pub FileReceived :
    Client → Client → ℕ → Bytes → Option Bytes → Option Bytes → Bytes → ℕ → ℕ → Type 0
FileReceived client client' status status_text content_type extra_headers contents offset size =
    let part = slice contents offset (clamp_length (length contents) offset size) in
    client'.received
    ≡ client.received
      ++ (status_lines status status_text (length part)
          ++ (content_type_line (Option.get_or content_type (codes "application/octet-stream"))
              ++ (optional_text extra_headers ++ (crlf ++ part))))

module _ (client : Client) (status : ℕ) (status_text : Bytes) (content_type : Option Bytes)
    (offset size : ℕ) (extra_headers : Option Bytes) (client' : Client) where
  send_contents_lem :
      (o : Option Bytes)
      → send_contents client status status_text content_type o offset size extra_headers
        ≡ (client', true)
      → (contents : Bytes) × (o ≡ some contents)
        × (offset ≤ length contents)
        × FileReceived client client' status status_text content_type extra_headers contents offset
            size
  send_contents_lem none e = absurd (ground arith)
  send_contents_lem (some contents) e = elim (Bool-cases (ltb (length contents) offset)) [
    | inl beyond ↦ absurd (ground arith)
    | inr inside ↦
        let fits : offset ≤ length contents = ltb-false→le _ _ inside in
        let sent = clamp_length (length contents) offset size in
        let (h, e1, e2) = send_headed_lem client _ contents offset sent client' (rw inside at e) in
        let text = file_header_lem status status_text content_type sent extra_headers h e1 in
        (
          contents,
          refl,
          fits,
          e2 ∙ rw (text, length-slice contents offset size fits) (simp append_assoc),
        )
  ]

  -- A file response is sent only whole, and its Content-Length is the number of bytes of the file
  -- that follow: from `offset` on, as many as were asked for (0 asks for all), or as there are.
  pub file_response_received :
      (files : Files) (path : Bytes)
      → http_send_file_response files client status status_text content_type path offset size
          extra_headers
        ≡ (client', true)
      → (contents : Bytes) × (files path ≡ some contents)
        × (offset ≤ length contents)
        × FileReceived client client' status status_text content_type extra_headers contents offset
            size
  unfolding http_send_file_response
  file_response_received files path e = send_contents_lem (files path) e

  -- A file response that is sent with success is of a file that exists, starts within it, and carries
  -- the bytes from `offset` on: all of them if 0 are asked for, else as many as are asked for or as
  -- there are; and its Content-Length is their number.
  pub http_send_file_response_lem :
      (files : Files) (path : Bytes)
      → http_send_file_response files client status status_text content_type path offset size
          extra_headers
        ≡ (client', true)
      → (before part rest : Bytes) × (files path ≡ some (before ++ (part ++ rest)))
        × (length before ≡ offset)
        × (size ≡ 0 → rest ≡ [])
        × (0 < size → length part ≡ min size (length part + length rest))
        × (client'.received
            ≡ client.received
              ++ (status_lines status status_text (length part)
                  ++ (content_type_line
                        (Option.get_or content_type (codes "application/octet-stream"))
                      ++ (optional_text extra_headers ++ (crlf ++ part)))))
  http_send_file_response_lem files path e =
      let (contents, there, inside, received) = file_response_received files path e in
      let n = clamp_length (length contents) offset size in
      let part = slice contents offset n in
      let rest = drop n (drop offset contents) in
      (
        take offset contents,
        part,
        rest,
        there
            ∙ ap some (
                sym (
                  ap (◌++◌ (take offset contents)) (take-append-drop n (drop offset contents))
                  ∙ take-append-drop offset contents)),
        omega (arith, length-take offset contents, inside),
        λ none_asked.
            let whole : clamp_length (length contents) offset size ≡ length contents - offset =
              ap (clamp_length (length contents) offset) none_asked
              ∙ clamp_length-all (length contents) offset in
            drop_all n (drop offset contents) (omega (arith, length-drop offset contents, whole)),
        λ asked. omega (
          arith,
          length-take n (drop offset contents),
          length-drop offset contents,
          length-drop n (drop offset contents),
          clamp_length-min (length contents) offset size asked,
        ),
        received,
      )
