-- ===== src/Video/Query.antt =====
-- server/src/video.c: the parameters of a query string, and the page that a list request asks for.
pub mod Laws
pub mod Params
use ott_server.Base.{
  List, Option, [], if◌then◌else◌, leb, ltb, ltb_ℤ, neg_part, negsuc, none, pos, pos_part, some,
  suc, zero, ℕ, ℤ, ◌%◌, ◌*◌, ◌+◌, ◌-◌, ◌==◌, ◌>>=◌, ◌^◌, ◌∷◌,
}
use ott_server.Cstr.{Bytes, codes, split_all, split_at, str_eq, strtol, within}
use ott_server.Http.Read.{cstr}

-- `hex_value`
unfoldable pub hex_value : ℕ → Option ℕ
hex_value c =
    if within b'0' b'9' c
    then some (c - b'0')
    else if within b'a' b'f' c
    then some (c - b'a' + 10)
    else if within b'A' b'F' c
    then some (c - b'A' + 10)
    else none

-- What a `%` stands for before these bytes, and how many of them it takes.
abbrev pub hex_pair : Option ℕ → Option ℕ → ℕ × ℕ
hex_pair (some hi) (some lo) = (hi * 16 + lo, 2)
hex_pair _ _ = (b'%', 0)

unfoldable pub escape_at : Bytes → ℕ × ℕ
unfolding hex_value
escape_at (a ∷ b ∷ s) = hex_pair (hex_value a) (hex_value b)
escape_at _ = (b'%', 0)

-- What a byte stands for before these bytes, and how many of them it takes.
unfoldable pub decoded_at : ℕ → Bytes → ℕ × ℕ
unfolding escape_at
decoded_at c s = if c == b'+' then (b' ', 0) else if c == b'%' then escape_at s else (c, 0)

-- A byte stored into what is left of the buffer, which keeps one for the NUL.
abbrev pub store_byte : ℕ → ℕ → Option Bytes → Option Bytes
store_byte room c none = none
store_byte room c (some rest) = if leb room 1 then none else some (c ∷ rest)

-- The loop of `url_decode_component`, which still skips `skip` bytes (`si += 2`).
unfoldable pub decode_loop : ℕ → ℕ → Bytes → Option Bytes
unfolding decoded_at
decode_loop room skip [] = some []
decode_loop room (suc skip) (c ∷ s) = decode_loop room skip s
decode_loop room zero (c ∷ s) =
    store_byte room (decoded_at c s).0 (decode_loop (room - 1) (decoded_at c s).1 s)

-- The bytes stored before the NUL.
unfoldable pub url_decode_component : Bytes → ℕ → Option Bytes
unfolding decode_loop
url_decode_component src dst_len = if dst_len == 0 then none else decode_loop dst_len 0 src

-- A pair without `=` is a key without a value.
abbrev pub key_value : Bytes → Option (Bytes × Bytes) → Bytes × Bytes
key_value pair none = (pair, [])
key_value pair (some kv) = kv

-- The loop of `query_get_param` over the pairs between `&`.
unfoldable pub find_pair : Bytes → ℕ → List Bytes → Option Bytes
unfolding str_eq split_at url_decode_component
find_pair name out_len [] = none
find_pair name out_len (pair ∷ pairs) =
    let rest = find_pair name out_len pairs in
    let kv = key_value pair (split_at b'=' pair) in
    if str_eq kv.0 name then url_decode_component kv.1 out_len else rest

unfoldable pub query_get_param : Bytes → Bytes → ℕ → Option Bytes
unfolding find_pair split_all
query_get_param query name out_len =
    if out_len == 0 then none else find_pair name out_len (split_all b'&' query)

-- The conversion of a long to an int of 32 bits.
unfoldable pub to_int : ℤ → ℤ
to_int v =
    let low = (pos_part v + 2 ^ 32 * neg_part v - neg_part v) % 2 ^ 32 in
    if ltb low (2 ^ 31) then pos low else negsuc (2 ^ 32 - low - 1)

-- The number that a text is in full.
abbrev pub whole_number : ℤ × Bytes → Option ℤ
whole_number (v, []) = some v
whole_number (v, c ∷ s) = none

unfoldable pub query_get_int : Bytes → Bytes → Option ℤ
unfolding query_get_param to_int strtol
query_get_int query name = do
  buf ← query_get_param query name 32
  v ← whole_number (strtol (cstr buf))
  some (to_int v)

abbrev pub default_limit : ℕ
default_limit = 12

abbrev pub max_limit : ℕ
max_limit = 50

-- `video_handle_list`: the limit and the cursor of the page.
abbrev pub clamp_limit : Option ℤ → ℤ
clamp_limit none = pos default_limit
clamp_limit (some v) =
    let low = if ltb_ℤ v (pos 1) then pos default_limit else v in
    if ltb_ℤ (pos max_limit) low then pos max_limit else low

abbrev pub clamp_cursor : Option ℤ → ℤ
clamp_cursor none = pos 0
clamp_cursor (some v) = if ltb_ℤ v (pos 0) then pos 0 else v

unfoldable pub page : Bytes → ℤ × ℤ
unfolding query_get_int
page query = (
  clamp_limit (query_get_int query (codes "limit")),
  clamp_cursor (query_get_int query (codes "cursor")),
)
