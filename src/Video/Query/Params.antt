-- ===== src/Video/Query/Params.antt =====
-- What `query_get_param` finds in the query of a list of keys and values, and the bounds of a page.
use ott_server.Base.{
  ==_refl, All, Bool-cases, List, Option, [], ap, arith, false, inl, inr, length, ltb, map, negsuc,
  none, pos, refl, some, suc, zero, ℕ, ℤ, ◌%◌, ◌++◌, ◌/◌, ◌<◌, ◌==◌, ◌∙◌, ◌∷◌, ◌≡◌, ◌≤◌,
}
use ott_server.Cstr.{Bytes, codes, is_alnum, lookup, split_all, split_at-append}
use ott_server.Video.Query.{
  clamp_cursor, clamp_limit, find_pair, max_limit, page, query_get_int, query_get_param,
}
use ott_server.Video.Query.Laws.{hex_digit, url_decode_component-url_encode, url_encode}

-- A query with these keys and values, the values percent-encoded.
abbrev pair_text : Bytes × Bytes → Bytes
pair_text kv = kv.0 ++ b'=' ∷ url_encode kv.1

abbrev pub build_query : List (Bytes × Bytes) → Bytes
build_query [] = []
build_query (kv ∷ []) = pair_text kv
build_query (kv ∷ next ∷ kvs) = pair_text kv ++ b'&' ∷ build_query (next ∷ kvs)

-- A key without `=` and `&`; a value of bytes that fits a buffer.
abbrev pub IsPair : ℕ → Bytes × Bytes → Type 0
IsPair out_len kv =
    All (λ c. ((c == b'=') ≡ false) × ((c == b'&') ≡ false)) kv.0
    × All (λ c. c < 256) kv.1
    × (length kv.1 < out_len)

pub split_all-head :
    (sep c : ℕ) (s t : Bytes)
    → All (λ d. (d == sep) ≡ false) (c ∷ s)
    → split_all sep ((c ∷ s) ++ sep ∷ t) ≡ (c ∷ s) ∷ split_all sep t
unfolding split_all
split_all-head sep c [] t h = rw (h.0, ==_refl sep)
split_all-head sep c (d ∷ s) t h = rw (h.0, split_all-head sep d s t h.1)

split_all-whole :
    (sep c : ℕ) (s : Bytes)
    → All (λ d. (d == sep) ≡ false) (c ∷ s)
    → split_all sep (c ∷ s) ≡ (c ∷ s) ∷ []
unfolding split_all
split_all-whole sep c [] h = rw h.0
split_all-whole sep c (d ∷ s) h = rw (h.0, split_all-whole sep d s h.1)

hex_digit_plain : (n : ℕ) → n < 16 → (hex_digit n == b'&') ≡ false
hex_digit_plain n h = ground arith

url_encode-All : (v : Bytes) → All (λ c. c < 256) v → All (λ c. (c == b'&') ≡ false) (url_encode v)
url_encode-All [] h = tt
url_encode-All (c ∷ v) h = elim (Bool-cases (is_alnum c)) [
  | inl plain ↦ rw plain (ground arith, url_encode-All v h.1)
  | inr other ↦ rw other (
    refl,
    (
      hex_digit_plain (c / 16) (omega (arith, h.0)),
      (hex_digit_plain (c % 16) (omega arith), url_encode-All v h.1),
    ),
  )
]

pair_text-plain :
    (k v : Bytes)
    → All (λ c. ((c == b'=') ≡ false) × ((c == b'&') ≡ false)) k
    → All (λ c. c < 256) v
    → All (λ c. (c == b'&') ≡ false) (pair_text (k, v))
pair_text-plain [] v h b = (refl, url_encode-All v b)
pair_text-plain (c ∷ k) v h b = (h.0.1, pair_text-plain k v h.1 b)

pair_text-cons : (kv : Bytes × Bytes) → (c : ℕ) × (s : Bytes) × (pair_text kv ≡ c ∷ s)
pair_text-cons ([], v) = (b'=', url_encode v, refl)
pair_text-cons (c ∷ k, v) = (c, k ++ b'=' ∷ url_encode v, refl)

key_plain :
    (k : Bytes)
    → All (λ c. ((c == b'=') ≡ false) × ((c == b'&') ≡ false)) k
    → All (λ c. (c == b'=') ≡ false) k
key_plain [] h = tt
key_plain (c ∷ k) h = (h.0.0, key_plain k h.1)

split_all-build_query :
    (out_len : ℕ) (kvs : List (Bytes × Bytes))
    → All (IsPair out_len) kvs
    → split_all b'&' (build_query kvs) ≡ map pair_text kvs
split_all-build_query out_len [] h = unfold split_all in refl
split_all-build_query out_len (kv ∷ []) h =
    let (c, s, e) = pair_text-cons kv in
    let plain = rw e at (pair_text-plain kv.0 kv.1 h.0.0 h.0.1) in
    rw e (split_all-whole b'&' c s plain)
split_all-build_query out_len (kv ∷ next ∷ kvs) h =
    let (c, s, e) = pair_text-cons kv in
    let plain = rw e at (pair_text-plain kv.0 kv.1 h.0.0 h.0.1) in
    rw e (
      split_all-head b'&' c s (build_query (next ∷ kvs)) plain
      ∙ ap (◌∷◌ (c ∷ s)) (split_all-build_query out_len (next ∷ kvs) h.1))

find_pair-pair_text :
    (name : Bytes) (out_len : ℕ) (kvs : List (Bytes × Bytes))
    → All (IsPair out_len) kvs
    → find_pair name out_len (map pair_text kvs) ≡ lookup name kvs
unfolding find_pair
find_pair-pair_text name out_len [] h = refl
find_pair-pair_text name out_len (kv ∷ kvs) h =
    rw
      (
        split_at-append b'=' kv.0 (url_encode kv.1) (key_plain kv.0 h.0.0),
        url_decode_component-url_encode kv.1 out_len h.0.1 h.0.2,
        find_pair-pair_text name out_len kvs h.1,
      )
      refl

-- In the query of a list of keys and percent-encoded values, where keys hold neither `=` nor `&`
-- and values are bytes that fit the buffer, a name has the value of its first occurrence.
pub query_get_param-build_query :
    (name : Bytes) (out_len : ℕ) (kvs : List (Bytes × Bytes))
    → 0 < out_len
    → All (IsPair out_len) kvs
    → query_get_param (build_query kvs) name out_len ≡ lookup name kvs
unfolding query_get_param
query_get_param-build_query name out_len kvs room h =
    let free : (out_len == 0) ≡ false = ground arith in
    rw (free, split_all-build_query out_len kvs h) (find_pair-pair_text name out_len kvs h)

clamp_limit_bounds : (v : Option ℤ) → (n : ℕ) × (clamp_limit v ≡ pos n) × (1 ≤ n) × (n ≤ max_limit)
clamp_limit_bounds none = (12, refl, omega arith, omega arith)
clamp_limit_bounds (some (negsuc n)) = (12, ground arith, omega arith, omega arith)
clamp_limit_bounds (some (pos zero)) = (12, refl, omega arith, omega arith)
clamp_limit_bounds (some (pos (suc n))) = elim (Bool-cases (ltb max_limit (suc n))) [
  | inl above ↦ (max_limit, ground arith, omega arith, omega arith)
  | inr below ↦ (suc n, ground arith, omega arith, ground arith)
]

clamp_cursor_bounds : (v : Option ℤ) → (n : ℕ) × (clamp_cursor v ≡ pos n)
clamp_cursor_bounds none = (0, refl)
clamp_cursor_bounds (some (pos n)) = (n, ground arith)
clamp_cursor_bounds (some (negsuc n)) = (0, ground arith)

-- Whatever the query says, the page has between 1 and 50 entries and starts at a natural number.
pub page_bounds :
    (query : Bytes)
    → (limit cursor : ℕ) × (page query ≡ (pos limit, pos cursor))
      × (1 ≤ limit)
      × (limit ≤ max_limit)
unfolding page
page_bounds query =
    let (limit, e, low, high) = clamp_limit_bounds (query_get_int query (codes "limit")) in
    let (cursor, f) = clamp_cursor_bounds (query_get_int query (codes "cursor")) in
    (limit, cursor, rw (e, f) refl, low, high)
