-- ===== src/Utils/Base64.antt =====
-- server/src/utils.c: `base64url_encode`.
pub mod Laws
use mathlib.Core.Option
use ott_server.Base.{
  Option, [], get_elem?, if◌then◌else◌, leb, length, ltb, map, none, some, ℕ, ◌%◌, ◌*◌, ◌++◌, ◌+◌,
  ◌/◌, ◌==◌, ◌>>=◌, ◌∷◌,
}
use ott_server.Cstr.{Bytes, codes}

abbrev table : Bytes
table = codes "ABCDEFGHIJKLMNOPQRSTUVWXYZabcdefghijklmnopqrstuvwxyz0123456789-_"

-- table[v], for the six bits `v`.
unfoldable pub digit : ℕ → ℕ
digit v = elim (get_elem? table v) [ none ↦ 0 | some c ↦ c ]

-- `(chunk >> k) & 0x3F`, with `2 ^ k` for the shift.
abbrev pub six : ℕ → ℕ → ℕ
six chunk k = chunk / k % 64

-- The four characters of one round of the loop; the second and third byte may be missing.
unfoldable pub encode_three : ℕ → ℕ → ℕ → Bytes
unfolding digit
encode_three a b c =
    let chunk = a * 65536 + b * 256 + c in
    digit (six chunk 262144)
    ∷ digit (six chunk 4096)
    ∷ digit (six chunk 64)
    ∷ digit (six chunk 1)
    ∷ []

unfoldable pub encode_two : ℕ → ℕ → Bytes
unfolding digit
encode_two a b =
    let chunk = a * 65536 + b * 256 in
    digit (six chunk 262144) ∷ digit (six chunk 4096) ∷ digit (six chunk 64) ∷ b'=' ∷ []

unfoldable pub encode_one : ℕ → Bytes
unfolding digit
encode_one a =
    let chunk = a * 65536 in digit (six chunk 262144) ∷ digit (six chunk 4096) ∷ b'=' ∷ b'=' ∷ []

-- Four characters more, if the output has room for them.
abbrev pub emit : ℕ → ℕ → Bytes → Option Bytes → Option Bytes
emit output_len out_index four rest =
    if ltb output_len (out_index + 4) then none else Option.map (◌++◌ four) rest

-- The for loop; `out_index` characters have been written.
unfoldable pub encode_loop : ℕ → ℕ → Bytes → Option Bytes
unfolding encode_three encode_two encode_one
encode_loop output_len i [] = some []
encode_loop output_len i (a ∷ []) = emit output_len i (encode_one a) (some [])
encode_loop output_len i (a ∷ b ∷ []) = emit output_len i (encode_two a b) (some [])
encode_loop output_len i (a ∷ b ∷ c ∷ s) =
    emit output_len i (encode_three a b c) (encode_loop output_len (i + 4) s)

-- `while (out_index > 0 && output[out_index - 1] == '=') out_index--;`
unfoldable pub strip_padding : Bytes → Bytes
strip_padding [] = []
strip_padding (c ∷ s) = elim (strip_padding s) [
  | [] ↦ if c == b'=' then [] else c ∷ []
  | x ∷ r ↦ c ∷ x ∷ r
]

-- The encoded text, or none for -1: no room for four characters in a round, or for the NUL.
unfoldable pub base64url_encode : Bytes → ℕ → Option Bytes
unfolding encode_loop strip_padding
base64url_encode input output_len = do
  padded ← encode_loop output_len 0 input
  let out = strip_padding padded
  if leb output_len (length out) then none else some out
