-- ===== src/Http/Receive.antt =====
-- server/src/http.c, `http_parse_request`: the whole of it.
pub mod Laws
pub mod Pointers
use ott_server.Base.{
  Bool, Option, [], drop, false, if◌then◌else◌, length, ltb, none, not, some, true, ℕ, ◌&&◌, ◌++◌,
  ◌+◌, ◌-◌,
}
use ott_server.Cstr.{codes, strtoull}
use ott_server.Http.{Request, http_get_header}
use ott_server.Http.Buffer.{initial_buffer, max_buffer}
use ott_server.Http.Parse.{parse_head}
use ott_server.Http.Read.{
  Buffered, Outcome, crlf_crlf, cstr, failed, make_room, ok, or_fail, read_body, read_headers,
  ◌>>=◌,
}
use ott_server.Http.Socket.{Incoming}

-- strtoull of the Content-Length header, 0 if there is none.
unfoldable pub content_length : Request → ℕ
unfolding http_get_header strtoull
content_length req = elim (http_get_header req (codes "Content-Length")) [
  | none ↦ 0
  | some value ↦ strtoull value
]

-- The request with its body, read to the end.
abbrev pub with_body : Request → Buffered → ℕ → ℕ → Request
with_body req b header_len length_of_body = record req {
  body = some (cstr (drop header_len b.bytes));
  body_length = length_of_body;
  raw_length = header_len + length_of_body;
  generation = b.generation;
}

-- Whether the buffer is the parser's own, and its first size.
abbrev pub is_owned : Option ℕ → Bool
is_owned none = true
is_owned (some size) = false

abbrev pub capacity_of : Option ℕ → ℕ
capacity_of none = initial_buffer
capacity_of (some size) = size

module _ (grants : ℕ → Bool) where
  -- The body, of which `b` may hold a part.
  unfoldable pub read_rest : ℕ → Bool → Buffered → ℕ → ℕ → Outcome Buffered
  read_rest fuel owns b header_len wanted =
      let available = length b.bytes - header_len in
      if ltb available wanted
      then (do
        roomy ← make_room grants owns b (header_len + wanted + 1)
        read_body grants owns fuel (wanted - available) roomy)
      else ok b

  -- The request and what is left in the socket. Without a buffer of the caller's, of a given size,
  -- one of 8 KiB is allocated, and can be reallocated.
  unfoldable pub http_parse_request : ℕ → Option ℕ → Incoming → Outcome (Request × Incoming)
  http_parse_request fuel buffer incoming =
      let owns = is_owned buffer in
      let capacity = capacity_of buffer in
      let start : Buffered = record {
        bytes = [];
        capacity = capacity;
        generation = 0;
        incoming = incoming;
      } in
      if owns && not (grants initial_buffer) then failed else (do
        (b, head) ← read_headers grants owns fuel start
        req ← or_fail (parse_head b.generation (head ++ crlf_crlf))
        let header_len = length head + 4
        let wanted = content_length req
        if ltb max_buffer wanted then failed else (do
          r ← read_rest fuel owns b header_len wanted
          ok (with_body req r header_len wanted, r.incoming)))
