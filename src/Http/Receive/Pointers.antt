-- ===== src/Http/Receive/Pointers.antt =====
-- The parser ends, stays within its limits, and leaves header pointers behind.
use ott_server.Base.{
  >>=-eq-some, All, Bool, Bool-cases, List, Option, [], ap, append_assoc, arith, drop,
  if◌then◌else◌, inl, inr, length, length-append, ltb, ltb-false→le, none, refl, some, subst, suc,
  sym, true, zero, ℕ, ◌++◌, ◌+◌, ◌<◌, ◌∙◌, ◌∷◌, ◌≡◌, ◌≢◌, ◌≤◌,
}
use ott_server.Cstr.{Bytes, split_on}
use ott_server.Http.{Header, Request}
use ott_server.Http.Buffer.{initial_buffer, max_buffer}
use ott_server.Http.Parse.{collect_headers, header_slots, lines, parse_head, scan_request_line}
use ott_server.Http.Parse.Laws.{collect_headers-generation, length-collect_headers}
use ott_server.Http.Read.{
  Buffered, Outcome, crlf, crlf_crlf, cstr, failed, ok, or_fail, stuck, ◌>>=◌,
}
use ott_server.Http.Read.Laws.{ReadsHeaders, arriving, read_headers_lem, total}
use ott_server.Http.Receive.{content_length, http_parse_request, read_rest, with_body}
use ott_server.Http.Receive.Laws.{ReadsRest, read_rest_lem}
use ott_server.Http.Socket.{Incoming}
use ott_server.Server.Start.{given}

-- How a request stands in what arrived: a head, its CRLFCRLF and the rest. The line and the headers
-- are parsed from the head; the buffer holds the bytes that were taken, at least up to the length of
-- the body behind the head; and the body is the C string there.
abbrev pub IsReceived : Incoming → Incoming → Request → Type 0
IsReceived incoming more req =
    (head rest raw : Bytes) × (first : Request) × (arriving incoming ≡ head ++ (crlf_crlf ++ rest))
    × (raw ++ arriving more ≡ arriving incoming)
    × (parse_head 0 (head ++ crlf_crlf) ≡ some first)
    × (length head + 4 + content_length first ≤ length raw)
    × (req ≡ record first {
      body = some (cstr (drop (length head + 4) raw));
      body_length = content_length first;
      raw_length = length head + 4 + content_length first;
      generation = req.generation;
    })

-- What `http_parse_request` gives when it allocates the buffer itself.
abbrev Parses : Incoming → Outcome (Request × Incoming) → Type 0
Parses incoming failed = Unit
Parses incoming stuck = ⊥
Parses incoming (ok (req, more)) =
    (req.body_length ≡ content_length req)
    × (req.body_length ≤ max_buffer)
    × (req.raw_length < initial_buffer + req.body_length)
    × (length req.headers ≤ header_slots)
    × All (λ (h : Header). h.generation ≡ 0) req.headers
    × (req.generation ≡ (if ltb req.raw_length initial_buffer then 0 else 1))
    × IsReceived incoming more req

parse_head_lem :
    (generation : ℕ) (text : Bytes) (req : Request)
    → parse_head generation text ≡ some req
    → (length req.headers ≤ header_slots)
      × All (λ (h : Header). h.generation ≡ generation) req.headers
unfolding parse_head
parse_head_lem generation text req e =
    let ((line, block), _, worded) = >>=-eq-some (split_on crlf text) _ e in
    let (words, _, built) = >>=-eq-some (scan_request_line line) _ worded in
    let headers : collect_headers generation 0 (lines [] block) ≡ req.headers = ground arith in
    rw (← headers) (
      omega (arith, length-collect_headers generation 0 (lines [] block) (omega arith)),
      collect_headers-generation generation 0 (lines [] block),
    )

length-cstr : (s : Bytes) → length (cstr s) ≤ length s
length-cstr [] = omega arith
length-cstr (zero ∷ s) = omega arith
length-cstr (suc c ∷ s) = omega (arith, length-cstr s)

-- A buffer is the C string at its start and a rest.
cstr-prefix : (s : Bytes) → (rest : Bytes) × (s ≡ cstr s ++ rest)
cstr-prefix [] = ([], refl)
cstr-prefix (zero ∷ s) = (zero ∷ s, refl)
cstr-prefix (suc c ∷ s) = let (rest, e) = cstr-prefix s in (rest, ap (◌∷◌ (suc c)) e)

module _ (grants : ℕ → Bool) (fuel : ℕ) (incoming : Incoming) (enough : total incoming < fuel) where
  after_head :
      (b : Buffered) (head : Bytes)
      → ReadsHeaders
          (record { bytes = []; capacity = initial_buffer; generation = 0; incoming = incoming })
          (ok (b, head))
      → (req : Request) → parse_head b.generation (head ++ crlf_crlf) ≡ some req
      → Parses incoming (
          if ltb max_buffer (content_length req)
          then failed
          else (read_rest grants fuel true b (length head + 4) (content_length req) >>= λ r.
              ok (with_body req r (length head + 4) (content_length req), r.incoming)))
  after_head b head h req e = elim (Bool-cases (ltb max_buffer (content_length req))) [
    | inl over ↦ rw over tt
    | inr small ↦ rw small (
        finish (read_rest grants fuel true b (length head + 4) (content_length req))
          (ltb-false→le _ _ small)
          (read_rest_lem grants fuel true b (length head + 4) (content_length req)
            (omega (arith, h)) long (omega (arith, h))))
  ]
    where
      long : length head + 4 ≤ length b.bytes
      long =
          omega (arith, length-cstr b.bytes, ap length h.5, length-append head (crlf_crlf ++ h.4))

      text : b.bytes ≡ (head ++ (crlf_crlf ++ h.4)) ++ (cstr-prefix b.bytes).0
      text = (cstr-prefix b.bytes).1 ∙ ap (λ s. s ++ (cstr-prefix b.bytes).0) h.5

      finish :
          (o : Outcome Buffered)
          → content_length req ≤ max_buffer
          → ReadsRest b (length head + 4) (content_length req) o
          → Parses incoming
              (o >>= λ r. ok (with_body req r (length head + 4) (content_length req), r.incoming))
      finish failed _ d = tt
      finish stuck _ d = d
      finish (ok r) bound d =
          let (few, points) = parse_head_lem b.generation (head ++ crlf_crlf) req e in
          (
            unfold content_length in refl,
            bound,
            omega (arith, long, h.0),
            few,
            subst (λ g. All (λ (x : Header). x.generation ≡ g) req.headers) h.2 points,
            d.1 ∙ ground (arith, h.1, h.2),
            (
              head,
              h.4 ++ ((cstr-prefix b.bytes).0 ++ arriving b.incoming),
              r.bytes,
              req,
              sym h.6 ∙ ap (λ s. s ++ arriving b.incoming) text ∙ simp append_assoc refl,
              d.2 ∙ h.6,
              subst (λ g. parse_head g (head ++ crlf_crlf) ≡ some req) h.2 e,
              d.0,
              refl,
            ),
          )

  -- The parser never runs out of fuel, and what it returns is as `Parses` says.
  http_parse_request-Parses : Parses incoming (http_parse_request grants fuel none incoming)
  unfolding http_parse_request
  http_parse_request-Parses = elim (Bool-cases (grants initial_buffer)) [
    | inl given ↦ rw given (carry _ (read_headers_lem grants true fuel _ (omega arith) enough))
    | inr denied ↦ rw denied tt
  ]
    where
      start : Buffered
      start = record { bytes = []; capacity = initial_buffer; generation = 0; incoming = incoming }

      head_parsed :
          (b : Buffered) (head : Bytes) (o : Option Request)
          → parse_head b.generation (head ++ crlf_crlf) ≡ o
          → ReadsHeaders start (ok (b, head))
          → Parses incoming (
              or_fail o >>= λ req.
              if ltb max_buffer (content_length req)
              then failed
              else (read_rest grants fuel true b (length head + 4) (content_length req) >>= λ r.
                  ok (with_body req r (length head + 4) (content_length req), r.incoming)))
      head_parsed b head none e h = tt
      head_parsed b head (some req) e h = after_head b head h req e

      carry :
          (o : Outcome (Buffered × Bytes))
          → ReadsHeaders start o
          → Parses incoming (
              o >>= λ bh. or_fail (parse_head bh.0.generation (bh.1 ++ crlf_crlf)) >>= λ req.
              if ltb max_buffer (content_length req)
              then failed
              else (read_rest grants fuel true bh.0 (length bh.1 + 4) (content_length req) >>= λ r.
                  ok (with_body req r (length bh.1 + 4) (content_length req), r.incoming)))
      carry failed h = tt
      carry stuck h = h
      carry (ok (b, head)) h = head_parsed b head _ refl h

module _ (grants : ℕ → Bool) (fuel : ℕ) (incoming : Incoming) (enough : total incoming < fuel) where
  -- With fuel above the number of bytes that arrive, the reading loops end: the parser returns a
  -- request or fails.
  pub http_parse_request_ends : http_parse_request grants fuel none incoming ≢ stuck
  http_parse_request_ends e = rw e at (http_parse_request-Parses grants fuel incoming enough)

  module _ (req : Request) (more : Incoming)
      (parsed : http_parse_request grants fuel none incoming ≡ ok (req, more)) where
    all : Parses incoming (ok (req, more))
    all = rw parsed at (http_parse_request-Parses grants fuel incoming enough)

    -- A parsed request has a body of the length that its Content-Length header says (0 without
    -- one), at most 8 MiB; the request line and the headers take less than 8 KiB; at most 32
    -- headers are stored. What arrived starts with a head and a CRLFCRLF: the line and the headers
    -- are those of the head, and the body is the C string behind it in the bytes that were taken
    -- from the socket, which are at least those that the header announces.
    pub http_parse_request_limits :
        (req.body_length ≡ content_length req)
        × (req.body_length ≤ max_buffer)
        × (req.raw_length < initial_buffer + req.body_length)
        × (length req.headers ≤ header_slots)
        × IsReceived incoming more req
    http_parse_request_limits = let a = all in (a.0, a.1, a.2, a.3, a.6)

    same_generation :
        (g k : ℕ) (hs : List Header)
        → All (λ (h : Header). h.generation ≡ g) hs
        → g ≢ k
        → All (λ (h : Header). h.generation ≢ k) hs
    same_generation g k [] a ne = tt
    same_generation g k (h ∷ hs) a ne = ((λ e. ne (sym a.0 ∙ e)), same_generation g k hs a.1 ne)

    -- A request of 8 KiB or more makes the parser reallocate the raw buffer behind the headers:
    -- every header pointer then refers to a buffer that has been given back.
    pub http_parse_request_dangling :
        initial_buffer ≤ req.raw_length
        → All (λ (h : Header). h.generation ≢ req.generation) req.headers
    http_parse_request_dangling large =
        let a = all in
        let moved : req.generation ≡ 1 = a.5 ∙ ground arith in
        same_generation 0 req.generation req.headers a.4 (omega arith)
