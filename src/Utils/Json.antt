-- ===== src/Utils/Json.antt =====
-- server/src/utils.c: `sb_append_json_string`, `json_get_string` and `json_get_double`.
pub mod Quote
pub mod RoundTrip
use mathlib.Core.Option
use ott_server.Base.{
  Bool, Option, [], if◌then◌else◌, leb, length, ltb, map, none, some, ℕ, ◌%◌, ◌++◌, ◌+◌, ◌-◌, ◌/◌,
  ◌==◌, ◌>>=◌, ◌||◌, ◌∷◌,
}
use ott_server.Cstr.{Bytes, codes, is_space, split_on}
use ott_server.Utils.Builder.{StringBuilder, sb_append}

-- A digit of `%x`.
abbrev hex_digit : ℕ → ℕ
hex_digit n = if ltb n 10 then b'0' + n else b'a' + (n - 10)

-- What the switch of `sb_append_json_string` appends for one byte; `\u%04x` below 0x20.
unfoldable pub json_escape : ℕ → Bytes
json_escape c =
    if c == b'"'
    then b'\\' ∷ b'"' ∷ []
    else if c == b'\\'
    then b'\\' ∷ b'\\' ∷ []
    else if c == b'\n'
    then b'\\' ∷ b'n' ∷ []
    else if c == b'\r'
    then b'\\' ∷ b'r' ∷ []
    else if c == b'\t'
    then b'\\' ∷ b't' ∷ []
    else if ltb c 0x20
    then codes "\\u00" ++ hex_digit (c / 16) ∷ hex_digit (c % 16) ∷ []
    else c ∷ []

module _ (malloc : ℕ → ℕ → Bool) where
  -- The loop over the bytes of the value.
  unfoldable pub append_escaped : StringBuilder → Bytes → Option StringBuilder
  unfolding json_escape
  append_escaped sb [] = some sb
  append_escaped sb (c ∷ s) = do sb' ← sb_append malloc sb (json_escape c); append_escaped sb' s

  -- A null value is read as the empty string.
  unfoldable pub sb_append_json_string : StringBuilder → Option Bytes → Option StringBuilder
  unfolding append_escaped
  sb_append_json_string sb value = do
    opened ← sb_append malloc sb (codes "\"")
    filled ← append_escaped opened (Option.get_or value [])
    sb_append malloc filled (codes "\"")

-- `"key"`, in a buffer of 64 bytes.
unfoldable pub key_pattern : Bytes → Option Bytes
key_pattern key =
    let pattern = b'"' ∷ (key ++ b'"' ∷ []) in
    if leb 64 (length pattern) then none else some pattern

-- `while (*pos && (isspace (*pos) || *pos == ':')) pos++;`
unfoldable pub skip_separators : Bytes → Bytes
skip_separators [] = []
skip_separators (c ∷ s) =
    let rest = skip_separators s in if is_space c || c == b':' then rest else c ∷ s

-- `out[i++] = c`, if the buffer has room for `c` and the NUL.
abbrev pub put : ℕ → ℕ → ℕ → Option Bytes → Option Bytes
put out_len i c rest = if leb out_len (i + 1) then none else Option.map (◌∷◌ c) rest

-- The loop over the string behind its opening quote, with `i` bytes already written.
unfoldable pub read_json_string : ℕ → ℕ → Bytes → Option Bytes
read_json_string out_len i [] = none
read_json_string out_len i (c ∷ []) = if c == b'"' then some [] else put out_len i c none
read_json_string out_len i (c ∷ d ∷ s) =
    let escaped = put out_len i d (read_json_string out_len (i + 1) s) in
    let plain = put out_len i c (read_json_string out_len (i + 1) (d ∷ s)) in
    if c == b'"' then some [] else if c == b'\\' then escaped else plain

-- The value that must begin with a quote.
unfoldable pub quoted_value : ℕ → Bytes → Option Bytes
unfolding read_json_string
quoted_value out_len [] = none
quoted_value out_len (c ∷ s) = if c == b'"' then read_json_string out_len 0 s else none

unfoldable pub json_get_string : Bytes → Bytes → ℕ → Option Bytes
unfolding key_pattern skip_separators
json_get_string json key out_len = if out_len == 0 then none else (do
  pattern ← key_pattern key
  (_, rest) ← split_on pattern json
  quoted_value out_len (skip_separators rest))

-- strtod is the C library's: the number and what follows it, or none if nothing was converted.
module _ {Double : Type 0} (strtod : Bytes → Option (Double × Bytes)) where
  unfoldable pub json_get_double : Bytes → Bytes → Option Double
  unfolding key_pattern skip_separators
  json_get_double json key = do
    pattern ← key_pattern key
    (_, rest) ← split_on pattern json
    Option.map (λ r. r.0) (strtod (skip_separators rest))
