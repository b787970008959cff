-- ===== src/Utils/Json/RoundTrip.antt =====
-- `json_get_string` reads back what `sb_append_json_string` writes, and stays inside its buffer.
use mathlib.Core.Option
use ott_server.Base.{
  ==_iff, >>=-eq-some, All, Bool-cases, Option, [], append_assoc, arith, false, inl, inr, leb,
  length, length-append, none, refl, some, ℕ, ◌++◌, ◌+◌, ◌<◌, ◌==◌, ◌∙◌, ◌∷◌, ◌≡◌, ◌≤◌,
}
use ott_server.Cstr.{Bytes, split_on, split_on-prefix}
use ott_server.Utils.Json.{
  json_escape, json_get_string, key_pattern, put, quoted_value, read_json_string, skip_separators,
}
use ott_server.Utils.Json.Quote.{escaped, quoted}

read-plain :
    (out_len i c : ℕ) (s : Bytes)
    → (c == b'"') ≡ false
    → (c == b'\\') ≡ false
    → read_json_string out_len i (c ∷ s) ≡ put out_len i c (read_json_string out_len (i + 1) s)
unfolding read_json_string
read-plain out_len i c [] q h = rw q
read-plain out_len i c (d ∷ s) q h = rw (q, h)

read-backslash :
    (out_len i d : ℕ) (s : Bytes)
    → read_json_string out_len i (b'\\' ∷ d ∷ s)
      ≡ put out_len i d (read_json_string out_len (i + 1) s)
unfolding read_json_string
read-backslash out_len i d s = refl

read-quote : (out_len i : ℕ) (s : Bytes) → read_json_string out_len i (b'"' ∷ s) ≡ some []
unfolding read_json_string
read-quote out_len i [] = refl
read-quote out_len i (d ∷ s) = refl

-- One escaped byte is read as that byte, whatever follows.
read-json_escape :
    (out_len i c : ℕ) (rest : Bytes)
    → 0x20 ≤ c
    → read_json_string out_len i (json_escape c ++ rest)
      ≡ put out_len i c (read_json_string out_len (i + 1) rest)
unfolding json_escape
read-json_escape out_len i c rest h = elim (Bool-cases (c == b'"')) [
  | inl q ↦ rw q (rw ((==_iff c _).0 q) (read-backslash out_len i b'"' rest))
  | inr nq ↦ elim (Bool-cases (c == b'\\')) [
    | inl bs ↦ rw (nq, bs) (rw ((==_iff c _).0 bs) (read-backslash out_len i b'\\' rest))
    | inr nb ↦ ground (arith, read-plain out_len i c rest nq nb)
  ]
]

read-escaped :
    (out_len i : ℕ) (v rest : Bytes)
    → All (λ c. 0x20 ≤ c) v
    → i + length v < out_len
    → read_json_string out_len i (escaped v ++ b'"' ∷ rest) ≡ some v
read-escaped out_len i [] rest p h = read-quote out_len i rest
read-escaped out_len i (c ∷ v) rest p h =
    rw (append_assoc (json_escape c) (escaped v) (b'"' ∷ rest)) (
      read-json_escape out_len i c (escaped v ++ b'"' ∷ rest) p.0
      ∙ rw (read-escaped out_len (i + 1) v rest p.1 (omega arith)) (ground arith))

key_pattern-short :
    (key : Bytes) → length key < 62 → key_pattern key ≡ some (b'"' ∷ (key ++ b'"' ∷ []))
unfolding key_pattern
key_pattern-short key h = ground (arith, length-append key (b'"' ∷ []))

separator-quote : (s : Bytes) → skip_separators (b':' ∷ b'"' ∷ s) ≡ b'"' ∷ s
unfolding skip_separators
separator-quote s = refl

-- `json_get_string` reads back, unescaped and whole, the value that `sb_append_json_string` wrote
-- for the first key of an object, if the key fits the pattern's buffer, the value has no control
-- characters and is shorter than the output buffer.
pub json_get_string-quoted :
    (pre key v rest : Bytes) (out_len : ℕ)
    → All (λ c. (b'"' == c) ≡ false) pre
    → length key < 62
    → All (λ c. 0x20 ≤ c) v
    → length v < out_len
    → json_get_string
        (pre ++ ((b'"' ∷ (key ++ b'"' ∷ [])) ++ b':' ∷ (quoted v ++ rest)))
        key
        out_len
      ≡ some v
unfolding json_get_string
json_get_string-quoted pre key v rest out_len h k p fits = elim (Bool-cases (out_len == 0)) [
  | inl empty ↦ absurd (ground arith)
  | inr some_room ↦
      rw (some_room, key_pattern-short key k, split_on-prefix b'"' (key ++ b'"' ∷ []) pre _ h)
        (rw (append_assoc (escaped v) (b'"' ∷ []) rest)
          (unfold quoted_value in read-escaped out_len 0 v rest p (omega arith)))
]

-- A result of the reading loop, at index `i`, lies inside the buffer with its NUL.
abbrev Fits : ℕ → ℕ → Option Bytes → Type 0
Fits out_len i none = Unit
Fits out_len i (some v) = i + length v < out_len

put-Fits :
    (out_len i c : ℕ) (r : Option Bytes)
    → (i + 1 < out_len → Fits out_len (i + 1) r)
    → Fits out_len i (put out_len i c r)
put-Fits out_len i c r f = elim (Bool-cases (leb out_len (i + 1))) [
  | inl full ↦ rw full tt
  | inr room ↦ rw room (written r (f (ground arith)))
]
  where
    written : (o : Option Bytes) → Fits out_len (i + 1) o → Fits out_len i (Option.map (◌∷◌ c) o)
    written none g = tt
    written (some v) g = omega arith

read_json_string-Fits :
    (out_len i : ℕ) (s : Bytes) → i < out_len → Fits out_len i (read_json_string out_len i s)
unfolding read_json_string
read_json_string-Fits out_len i [] h = tt
read_json_string-Fits out_len i (c ∷ []) h = elim (Bool-cases (c == b'"')) [
  | inl q ↦ rw q (omega arith)
  | inr nq ↦ rw nq (put-Fits out_len i c none λ _. tt)
]
read_json_string-Fits out_len i (c ∷ d ∷ s) h = elim (Bool-cases (c == b'"')) [
  | inl q ↦ rw q (omega arith)
  | inr nq ↦ elim (Bool-cases (c == b'\\')) [
    | inl bs ↦ rw (nq, bs) (put-Fits out_len i d _ (read_json_string-Fits out_len (i + 1) s))
    | inr nb ↦ rw (nq, nb) (put-Fits out_len i c _ (read_json_string-Fits out_len (i + 1) (d ∷ s)))
  ]
]

quoted_value-length :
    (out_len : ℕ) (s v : Bytes) → 0 < out_len → quoted_value out_len s ≡ some v → length v < out_len
unfolding quoted_value
quoted_value-length out_len [] v h e = absurd cc
quoted_value-length out_len (c ∷ s) v h e = elim (Bool-cases (c == b'"')) [
  | inl q ↦
      let read : read_json_string out_len 0 s ≡ some v = rw q at e in
      omega (arith, rw read at (read_json_string-Fits out_len 0 s h))
  | inr nq ↦ absurd (cc (rw nq at e))
]

-- Whatever the document, a value that `json_get_string` returns fits the output buffer with its NUL.
pub json_get_string-length :
    (json key : Bytes) (out_len : ℕ) (v : Bytes)
    → json_get_string json key out_len ≡ some v
    → length v < out_len
unfolding json_get_string
json_get_string-length json key out_len v e = elim (Bool-cases (out_len == 0)) [
  | inl empty ↦ absurd (cc (rw empty at e))
  | inr room ↦
      let (pattern, _, searched) = >>=-eq-some (key_pattern key) _ (rw room at e) in
      let (found, _, value) = >>=-eq-some (split_on pattern json) _ searched in
      quoted_value-length out_len (skip_separators found.1) v (ground arith) value
]
