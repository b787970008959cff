-- ===== src/Video/Query/Laws.antt =====
-- What `query_get_param` finds in a query that is encoded from keys and values.
use ott_server.Base.{
  All, Bool-cases, Option, [], ap, arith, false, if◌then◌else◌, inl, inr, leb, length, ltb, none,
  refl, some, suc, zero, ℕ, ◌%◌, ◌+◌, ◌-◌, ◌/◌, ◌<◌, ◌==◌, ◌∷◌, ◌≡◌,
}
use ott_server.Cstr.{Bytes, is_alnum}
use ott_server.Video.Query.{
  decode_loop, decoded_at, escape_at, hex_value, store_byte, url_decode_component,
}

-- The hexadecimal digit of a number below 16.
abbrev pub hex_digit : ℕ → ℕ
hex_digit n = if ltb n 10 then b'0' + n else b'A' + (n - 10)

-- The percent encoding: letters and digits stay, any other byte is `%XX`.
abbrev url_encode_onto : ℕ → Bytes → Bytes
url_encode_onto c rest =
    if is_alnum c then c ∷ rest else b'%' ∷ hex_digit (c / 16) ∷ hex_digit (c % 16) ∷ rest

abbrev pub url_encode : Bytes → Bytes
url_encode [] = []
url_encode (c ∷ s) = url_encode_onto c (url_encode s)

hex_value-hex_digit : (n : ℕ) → n < 16 → hex_value (hex_digit n) ≡ some n
unfolding hex_value
hex_value-hex_digit n h = ground arith

decode_loop-length :
    (room skip : ℕ) (s out : Bytes)
    → 0 < room
    → decode_loop room skip s ≡ some out
    → length out < room
unfolding decode_loop
decode_loop-length room skip [] out h e = ground arith
decode_loop-length room (suc skip) (c ∷ s) out h e = decode_loop-length room skip s out h e
decode_loop-length room zero (c ∷ s) out h e =
    go (decode_loop (room - 1) (decoded_at c s).1 s)
      (λ k rest. decode_loop-length (room - 1) (decoded_at c s).1 s rest k) e
  where
    go :
        (rest : Option Bytes)
        → (0 < room - 1 → (out' : Bytes) → rest ≡ some out' → length out' < room - 1)
        → store_byte room (decoded_at c s).0 rest ≡ some out
        → length out < room
    go none k e' = absurd cc
    go (some rest) k e' = elim (Bool-cases (leb room 1)) [
      | inl full ↦ absurd (cc (rw full at e'))
      | inr free ↦
          let same : some ((decoded_at c s).0 ∷ rest) ≡ some out = rw free at e' in
          let size = k (ground arith) rest refl in ground arith
    ]

-- What is decoded fits the buffer with its NUL.
pub url_decode_component-length :
    (src : Bytes) (dst_len : ℕ) (out : Bytes)
    → url_decode_component src dst_len ≡ some out
    → length out < dst_len
unfolding url_decode_component
url_decode_component-length src dst_len out e = elim (Bool-cases (dst_len == 0)) [
  | inl empty ↦ absurd (cc (rw empty at e))
  | inr room ↦ decode_loop-length dst_len 0 src out (ground arith) (rw room at e)
]

decode_loop-encoded :
    (room c : ℕ) (rest : Bytes)
    → c < 256
    → decode_loop room 0 (url_encode_onto c rest)
      ≡ store_byte room c (decode_loop (room - 1) 0 rest)
unfolding decode_loop decoded_at
decode_loop-encoded room c rest h = elim (Bool-cases (is_alnum c)) [
  | inl plain ↦
      let plus : (c == b'+') ≡ false = ground arith in
      let percent : (c == b'%') ≡ false = ground arith in rw plain (rw (plus, percent) refl)
  | inr other ↦ rw other (
      unfold escape_at in
      rw (hex_value-hex_digit (c / 16) (omega arith), hex_value-hex_digit (c % 16) (omega arith))
        (ap (λ x. store_byte room x (decode_loop (room - 1) 0 rest)) (omega arith)))
]

decode_loop-url_encode :
    (room : ℕ) (s : Bytes)
    → All (λ c. c < 256) s
    → length s < room
    → decode_loop room 0 (url_encode s) ≡ some s
decode_loop-url_encode room [] h k = unfold decode_loop in refl
decode_loop-url_encode room (c ∷ s) h k =
    let free : leb room 1 ≡ false = ground arith in
    rw
      (
        decode_loop-encoded room c (url_encode s) h.0,
        decode_loop-url_encode (room - 1) s h.1 (omega arith),
        free,
      )
      refl

-- Decoding a percent-encoded text of bytes gives it back, if it fits the buffer.
pub url_decode_component-url_encode :
    (s : Bytes) (dst_len : ℕ)
    → All (λ c. c < 256) s
    → length s < dst_len
    → url_decode_component (url_encode s) dst_len ≡ some s
unfolding url_decode_component
url_decode_component-url_encode s dst_len h k =
    let room : (dst_len == 0) ≡ false = ground arith in
    rw room (decode_loop-url_encode dst_len s h k)
