-- ===== src/Utils/Base64/Laws.antt =====
-- `base64url_encode` can be undone, writes URL-safe characters only, and has a known length.
use ott_server.Base.{
  ==_iff, >>=-eq-some, All, Bool, Option, [], and_iff, ap, ap₂, arith, false, if◌then◌else◌, length,
  le→ltb-false, none, refl, some, suc, take, true, zero, ℕ, ◌%◌, ◌&&◌, ◌*◌, ◌++◌, ◌+◌, ◌-◌, ◌/◌,
  ◌<◌, ◌==◌, ◌||◌, ◌∷◌, ◌≡◌, ◌≤◌,
}
use ott_server.Cstr.{Bytes, is_alnum, within}
use ott_server.Utils.Base64.{
  base64url_encode, digit, emit, encode_loop, encode_one, encode_three, encode_two, six,
  strip_padding,
}

-- The value of a character of the alphabet.
value : ℕ → ℕ
value c =
    if within b'A' b'Z' c
    then c - b'A'
    else if within b'a' b'z' c
    then c - b'a' + 26
    else if within b'0' b'9' c
    then c - b'0' + 52
    else if c == b'-'
    then 62
    else 63

-- Unpadded base64url, read back: a decoder written from the format and not from the encoder.
pub decode : Bytes → Bytes
decode (a ∷ b ∷ c ∷ d ∷ s) =
    (value a * 4 + value b / 16)
    ∷ (value b % 16 * 16 + value c / 4)
    ∷ (value c % 4 * 64 + value d)
    ∷ decode s
decode (a ∷ b ∷ c ∷ []) = (value a * 4 + value b / 16) ∷ (value b % 16 * 16 + value c / 4) ∷ []
decode (a ∷ b ∷ []) = (value a * 4 + value b / 16) ∷ []
decode _ = []

-- Six bits have 64 values, which a test can go through.
passes : (ℕ → Bool) → ℕ → Bool
passes test zero = true
passes test (suc bound) = passes test bound && test bound

passes-lt : (test : ℕ → Bool) (bound v : ℕ) → v < bound → passes test bound ≡ true → test v ≡ true
unfolding passes
passes-lt test zero v h ran = elim h [ ]
passes-lt test (suc bound) v h ran =
    let (earlier, last) = (and_iff (passes test bound) (test bound)).0 ran in
    ground (arith, passes-lt test bound v)

abbrev pub is_url_safe : ℕ → Bool
is_url_safe c = is_alnum c || c == b'-' || c == b'_'

digit_table : passes (λ v. value (digit v) == v && is_url_safe (digit v)) 64 ≡ true
unfolding passes digit value
digit_table = refl

-- Every digit is URL-safe and stands for its value.
value-digit : (v : ℕ) → v < 64 → (value (digit v) ≡ v) × (is_url_safe (digit v) ≡ true)
value-digit v h =
    let test = λ (x : ℕ). value (digit x) == x && is_url_safe (digit x) in
    let (a, b) = (and_iff _ _).0 (passes-lt test 64 v h digit_table) in ((==_iff _ _).0 a, b)

digit-ne-pad : (v : ℕ) → v < 64 → (digit v == b'=') ≡ false
digit-ne-pad v h = ground (arith, value-digit v h)

-- The encoding with no padding.
plain : Bytes → Bytes
plain [] = []
plain (a ∷ []) = take 2 (encode_one a)
plain (a ∷ b ∷ []) = take 3 (encode_two a b)
plain (a ∷ b ∷ c ∷ s) = encode_three a b c ++ plain s

strip-keep : (c : ℕ) (s : Bytes) → (c == b'=') ≡ false → strip_padding (c ∷ s) ≡ c ∷ strip_padding s
unfolding strip_padding
strip-keep c s h = keep (strip_padding s)
  where
    keep :
        (r : Bytes) → elim r [ [] ↦ if c == b'=' then [] else c ∷ [] | x ∷ r' ↦ c ∷ x ∷ r' ] ≡ c ∷ r
    keep [] = rw h
    keep (x ∷ r) = refl

strip-digit :
    (chunk k : ℕ) (s : Bytes)
    → strip_padding (digit (six chunk k) ∷ s) ≡ digit (six chunk k) ∷ strip_padding s
strip-digit chunk k s = strip-keep (digit (six chunk k)) s (digit-ne-pad _ (omega arith))

emit-eq-some :
    (output_len i : ℕ) (four : Bytes) (rest : Option Bytes) (padded : Bytes)
    → emit output_len i four rest ≡ some padded
    → (r : Bytes) × (rest ≡ some r) × (padded ≡ four ++ r) × (i + 4 ≤ output_len)
emit-eq-some output_len i four none padded e = absurd (ground arith)
emit-eq-some output_len i four (some r) padded e = (r, refl, ground arith, ground arith)

encode_loop-plain :
    (output_len i : ℕ) (s padded : Bytes)
    → encode_loop output_len i s ≡ some padded
    → strip_padding padded ≡ plain s
unfolding encode_loop plain
encode_loop-plain output_len i [] padded e = unfold strip_padding in ground arith
encode_loop-plain output_len i (a ∷ []) padded e =
    let (r, e1, e2, _) = emit-eq-some output_len i (encode_one a) (some []) padded e in
    let none_left : r ≡ [] = ground arith in
    rw (e2, none_left, strip-digit, strip-digit) (unfold strip_padding in refl)
encode_loop-plain output_len i (a ∷ b ∷ []) padded e =
    let (r, e1, e2, _) = emit-eq-some output_len i (encode_two a b) (some []) padded e in
    let none_left : r ≡ [] = ground arith in
    rw (e2, none_left, strip-digit, strip-digit, strip-digit) (unfold strip_padding in refl)
encode_loop-plain output_len i (a ∷ b ∷ c ∷ s) padded e =
    let (r, e1, e2, _) =
      emit-eq-some output_len i (encode_three a b c) (encode_loop output_len (i + 4) s) padded e in
    rw (e2, strip-digit, strip-digit, strip-digit, strip-digit)
      (rw (encode_loop-plain output_len (i + 4) s r e1))

value-six : (chunk k : ℕ) → value (digit (six chunk k)) ≡ six chunk k
value-six chunk k = (value-digit (six chunk k) (omega arith)).0

regroup :
    (a b c chunk : ℕ)
    → a < 256
    → b < 256
    → c < 256
    → chunk ≡ a * 65536 + b * 256 + c
    → (six chunk 262144 * 4 + six chunk 4096 / 16 ≡ a)
      × (six chunk 4096 % 16 * 16 + six chunk 64 / 4 ≡ b)
      × (six chunk 64 % 4 * 64 + six chunk 1 ≡ c)
regroup a b c chunk ha hb hc e = omega arith

decode-plain : (s : Bytes) → All (λ c. c < 256) s → decode (plain s) ≡ s
unfolding decode plain encode_one encode_two encode_three
decode-plain [] h = refl
decode-plain (a ∷ []) h =
    simp value-six
      (ap (λ x. x ∷ []) (regroup a 0 0 (a * 65536) h.0 (omega arith) (omega arith) (omega arith)).0)
decode-plain (a ∷ b ∷ []) h = simp value-six (
    let r = regroup a b 0 (a * 65536 + b * 256) h.0 h.1.0 (omega arith) (omega arith) in
    ap₂ (λ x y. x ∷ y ∷ []) r.0 r.1)
decode-plain (a ∷ b ∷ c ∷ s) h =
    simp (value-six, decode-plain s h.1.1.1)
      (let r = regroup a b c (a * 65536 + b * 256 + c) h.0 h.1.0 h.1.1.0 refl in
        ap₂ ◌∷◌ r.0 (ap₂ (λ x y. x ∷ y ∷ s) r.1 r.2))

-- Decoding what `base64url_encode` returns gives the input bytes back.
pub decode-base64url_encode :
    (input : Bytes) (output_len : ℕ) (out : Bytes)
    → All (λ c. c < 256) input
    → base64url_encode input output_len ≡ some out
    → decode out ≡ input
unfolding base64url_encode
decode-base64url_encode input output_len out h e =
    let (padded, e1, e2) = >>=-eq-some (encode_loop output_len 0 input) _ e in
    let stripped = encode_loop-plain output_len 0 input padded e1 in
    let result : strip_padding padded ≡ out = ground arith in
    rw (← result, stripped) (decode-plain input h)

safe : (chunk k : ℕ) → is_url_safe (digit (six chunk k)) ≡ true
safe chunk k = (value-digit (six chunk k) (omega arith)).1

length-plain : (s : Bytes) → length (plain s) ≡ (4 * length s + 2) / 3
unfolding plain encode_one encode_two encode_three
length-plain [] = refl
length-plain (a ∷ []) = refl
length-plain (a ∷ b ∷ []) = refl
length-plain (a ∷ b ∷ c ∷ s) = omega (arith, length-plain s)

plain-url_safe : (s : Bytes) → All (λ c. is_url_safe c ≡ true) (plain s)
unfolding plain encode_one encode_two encode_three
plain-url_safe [] = tt
plain-url_safe (a ∷ []) = let at = safe (a * 65536) in (at 262144, (at 4096, tt))
plain-url_safe (a ∷ b ∷ []) =
    let at = safe (a * 65536 + b * 256) in (at 262144, (at 4096, (at 64, tt)))
plain-url_safe (a ∷ b ∷ c ∷ s) =
    let at = safe (a * 65536 + b * 256 + c) in
    (at 262144, (at 4096, (at 64, (at 1, plain-url_safe s))))

-- The result has the length of unpadded base64, fits the buffer with its NUL, and consists of
-- letters, digits, `-` and `_`.
pub base64url_encode_shape :
    (input : Bytes) (output_len : ℕ) (out : Bytes)
    → base64url_encode input output_len ≡ some out
    → (length out ≡ (4 * length input + 2) / 3)
      × (length out < output_len)
      × All (λ c. is_url_safe c ≡ true) out
unfolding base64url_encode
base64url_encode_shape input output_len out e =
    let (padded, e1, e2) = >>=-eq-some (encode_loop output_len 0 input) _ e in
    let stripped = encode_loop-plain output_len 0 input padded e1 in
    let result : strip_padding padded ≡ out = ground arith in
    let same : plain input ≡ out = ground arith in
    (rw (← same) (length-plain input), ground arith, rw (← same) (plain-url_safe input))

emit-room :
    (output_len i : ℕ) (four r : Bytes)
    → i + 4 ≤ output_len
    → emit output_len i four (some r) ≡ some (four ++ r)
emit-room output_len i four r h = rw (le→ltb-false output_len (i + 4) h)

encode_loop_total :
    (output_len i : ℕ) (s : Bytes)
    → i + 4 * ((length s + 2) / 3) ≤ output_len
    → (padded : Bytes) × (encode_loop output_len i s ≡ some padded)
unfolding encode_loop
encode_loop_total output_len i [] h = ([], refl)
encode_loop_total output_len i (a ∷ []) h =
    (encode_one a, emit-room output_len i (encode_one a) [] (omega arith))
encode_loop_total output_len i (a ∷ b ∷ []) h =
    (encode_two a b, emit-room output_len i (encode_two a b) [] (omega arith))
encode_loop_total output_len i (a ∷ b ∷ c ∷ s) h =
    let (r, e) = encode_loop_total output_len (i + 4) s (omega arith) in
    (encode_three a b c ++ r, rw e (emit-room output_len i (encode_three a b c) r (omega arith)))

-- A buffer with room for the padded text and a NUL is always enough.
pub base64url_encode_total :
    (input : Bytes) (output_len : ℕ)
    → 4 * ((length input + 2) / 3) < output_len
    → (out : Bytes) × (base64url_encode input output_len ≡ some out)
unfolding base64url_encode
base64url_encode_total input output_len h =
    let (padded, e) = encode_loop_total output_len 0 input (omega arith) in
    let stripped = encode_loop-plain output_len 0 input padded e in
    let short : length (plain input) < output_len = omega (arith, length-plain input) in
    (plain input, rw (e, stripped) (ground arith))
