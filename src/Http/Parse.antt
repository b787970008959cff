-- ===== src/Http/Parse.antt =====
-- server/src/http.c, `http_parse_request`: the request line, the headers and the body.
pub mod Laws
use ott_server.Base.{
  List, Option, [], if◌then◌else◌, ltb, none, some, suc, take, zero, ℕ, ◌&&◌, ◌++◌, ◌+◌, ◌==◌,
  ◌>>=◌, ◌∷◌,
}
use ott_server.Cstr.{Bytes, drop_spaces, is_space, split_at, split_on}
use ott_server.Http.{Header, Request, http_method_from_string, request_init}
use ott_server.Http.Read.{crlf}

-- One `%Ns` of sscanf: spaces are skipped, then at most N other bytes are taken.
unfoldable pub take_word : ℕ → Bytes → Bytes × Bytes
take_word zero s = ([], s)
take_word (suc n) [] = ([], [])
take_word (suc n) (c ∷ s) =
    let (word, rest) = take_word n s in if is_space c then ([], c ∷ s) else (c ∷ word, rest)

-- A conversion fails if no byte is left for it.
abbrev converted : Bytes → Bytes → Option (Bytes × Bytes)
converted [] rest = none
converted (c ∷ word) rest = some (c ∷ word, rest)

unfoldable pub scan_word : ℕ → Bytes → Option (Bytes × Bytes)
unfolding take_word drop_spaces
scan_word width s = let (word, rest) = take_word width (drop_spaces s) in converted word rest

pub record RequestLine : Type 0 where
  pub method : Bytes
  pub url : Bytes
  pub version : Bytes

-- sscanf (line, "%15s %511s %15s", method, url, version) == 3
unfoldable pub scan_request_line : Bytes → Option RequestLine
unfolding scan_word
scan_request_line line = do
  (method, after_method) ← scan_word 15 line
  (url, after_url) ← scan_word 511 after_method
  (version, _) ← scan_word 15 after_url
  some (record { method = method; url = url; version = version })

-- The lines of a text that end in CRLF; `line` is what has been read of the current one.
unfoldable pub lines : Bytes → Bytes → List Bytes
lines line [] = []
lines line (c ∷ []) = []
lines line (c ∷ d ∷ s) =
    let ended = line ∷ lines [] s in
    let longer = lines (line ++ c ∷ []) (d ∷ s) in
    if c == b'\r' && d == b'\n' then ended else longer

-- ARRAY_SIZE (req->headers)
abbrev pub header_slots : ℕ
header_slots = 32

-- One header line, split at its colon: `stored` if it is stored, and otherwise `rest`.
abbrev pub store : ℕ → ℕ → Option (Bytes × Bytes) → List Header → List Header → List Header
store generation count none rest stored = rest
store generation count (some (name, value)) rest stored =
    if ltb count header_slots
    then record { name = name; value = drop_spaces value; generation = generation } ∷ stored
    else rest

-- The loop over the header lines, up to the empty one; `count` headers are stored. A line with no
-- colon is passed over, and so is a header for which there is no slot.
unfoldable pub collect_headers : ℕ → ℕ → List Bytes → List Header
unfolding split_at drop_spaces
collect_headers generation count [] = []
collect_headers generation count ([] ∷ ls) = []
collect_headers generation count ((c ∷ l) ∷ ls) =
    let rest = collect_headers generation count ls in
    let stored = collect_headers generation (count + 1) ls in
    store generation count (split_at b':' (c ∷ l)) rest stored

-- The url before and behind the first `?`.
unfoldable pub split_url : Bytes → Bytes × Bytes
unfolding split_at
split_url url = elim (split_at b'?' url) [ none ↦ (url, []) | some (path, query) ↦ (path, query) ]

-- The request with its line and headers, from the text up to and with the CRLFCRLF.
unfoldable pub parse_head : ℕ → Bytes → Option Request
unfolding scan_request_line lines collect_headers split_url http_method_from_string split_on
parse_head generation text = do
  (line, block) ← split_on crlf text
  words ← scan_request_line line
  let target = split_url words.url
  some (record request_init {
    method = http_method_from_string words.method;
    http_version = take 15 words.version;
    path = take 511 target.0;
    query = take 511 target.1;
    headers = collect_headers generation 0 (lines [] block);
  })
