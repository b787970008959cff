-- ===== src/Cstr/Number.antt =====
-- Decimal numbers: `%d` and `%zu` of printf, strtol, strtoll and strtoull in base 10.
use ott_server.Base.{
  All, Bool, Bool-cases, [], arith, false, if◌then◌else◌, inl, inr, leb, length, ltb, ltb→lt,
  lt→ltb, min, negsuc, pos, refl, sub_ℕ, suc, true, zero, ℕ, ℤ, ◌%◌, ◌*◌, ◌++◌, ◌+◌, ◌-◌, ◌/◌, ◌<◌,
  ◌==◌, ◌^◌, ◌∙◌, ◌∷◌, ◌≡◌, ◌≤◌,
}
use ott_server.Cstr.Search.{Bytes, drop_spaces, is_digit}

-- The digits of `n`, written before `out`; the fuel bounds their number.
unfoldable pub digits_onto : ℕ → ℕ → Bytes → Bytes
digits_onto zero n out = out
digits_onto (suc f) n out =
    let rest = digits_onto f (n / 10) ((b'0' + n % 10) ∷ out) in
    if ltb n 10 then (b'0' + n) ∷ out else rest

-- `n + 1` rounds are enough: each divides by ten.
unfoldable pub decimal : ℕ → Bytes
unfolding digits_onto
decimal n = digits_onto (suc n) n []

-- `%d` of a signed number.
unfoldable pub decimal_ℤ : ℤ → Bytes
unfolding decimal
decimal_ℤ (pos n) = decimal n
decimal_ℤ (negsuc n) = b'-' ∷ decimal (suc n)

-- The leading digits of `s` behind those of `acc`, and what follows them.
unfoldable pub read_digits : ℕ → Bytes → ℕ × Bytes
read_digits acc [] = (acc, [])
read_digits acc (c ∷ s) =
    let rest = read_digits (acc * 10 + (c - b'0')) s in if is_digit c then rest else (acc, c ∷ s)

abbrev pub long_max : ℕ
long_max = 2 ^ 63 - 1

abbrev pub ulong_max : ℕ
ulong_max = 2 ^ 64 - 1

abbrev pub int_max : ℕ
int_max = 2 ^ 31 - 1

-- A sign: whether it is `-`, and what follows it.
unfoldable pub read_sign : Bytes → Bool × Bytes
read_sign [] = (false, [])
read_sign (c ∷ s) =
    if c == b'-' then (true, s) else if c == b'+' then (false, s) else (false, c ∷ s)

-- Whether a digit stands first.
unfoldable pub starts_digit : Bytes → Bool
starts_digit [] = false
starts_digit (c ∷ s) = is_digit c

-- The value of strtol, clamped to `long` as on ERANGE.
unfoldable pub clamp_long : Bool → ℕ → ℤ
clamp_long true n = sub_ℕ 0 (min n (2 ^ 63))
clamp_long false n = pos (min n long_max)

-- strtol and strtoll in base 10: the value, and what `end` points to. Without a digit nothing is
-- converted, and `end` is the start.
unfoldable pub strtol : Bytes → ℤ × Bytes
unfolding drop_spaces read_sign starts_digit read_digits clamp_long
strtol s =
    let signed = read_sign (drop_spaces s) in
    let (n, rest) = read_digits 0 signed.1 in
    if starts_digit signed.1 then (clamp_long signed.0 n, rest) else (pos 0, s)

-- The value of strtoull in base 10: clamped to `unsigned long long`, and negated modulo 2 ^ 64.
unfoldable pub strtoull : Bytes → ℕ
unfolding drop_spaces read_sign starts_digit read_digits
strtoull s =
    let signed = read_sign (drop_spaces s) in
    let n = (read_digits 0 signed.1).0 in
    if leb n ulong_max then (if signed.0 then (2 ^ 64 - n) % 2 ^ 64 else n) else ulong_max

read_digits-digits_onto :
    (f n : ℕ) (out : Bytes) → n < f → read_digits 0 (digits_onto f n out) ≡ read_digits n out
unfolding digits_onto read_digits
read_digits-digits_onto zero n out h = elim h [ ]
read_digits-digits_onto (suc f) n out h = elim (Bool-cases (ltb n 10)) [
  | inl small ↦ rw small (ground arith)
  | inr big ↦
      rw big
        (read_digits-digits_onto f (n / 10) ((b'0' + n % 10) ∷ out) (ground arith) ∙ ground arith)
]

digits_onto-append :
    (f n : ℕ) (out rest : Bytes) → digits_onto f n out ++ rest ≡ digits_onto f n (out ++ rest)
unfolding digits_onto
digits_onto-append zero n out rest = refl
digits_onto-append (suc f) n out rest =
    ground (arith, digits_onto-append f (n / 10) ((b'0' + n % 10) ∷ out) rest)

digits_onto-head :
    (f n : ℕ) (out : Bytes)
    → n < f
    → (c : ℕ) × (s : Bytes) × (digits_onto f n out ≡ c ∷ s) × (is_digit c ≡ true)
unfolding digits_onto
digits_onto-head zero n out h = elim h [ ]
digits_onto-head (suc f) n out h = elim (Bool-cases (ltb n 10)) [
  | inl small ↦ (b'0' + n, out, rw small, ground arith)
  | inr big ↦ rw big (digits_onto-head f (n / 10) ((b'0' + n % 10) ∷ out) (ground arith))
]

read_digits-stop :
    (n : ℕ) (rest : Bytes) → starts_digit rest ≡ false → read_digits n rest ≡ (n, rest)
unfolding read_digits starts_digit
read_digits-stop n [] h = refl
read_digits-stop n (c ∷ s) h = rw h

-- Reading the digits that `%d` prints gives the number back, and stops behind them.
pub read_digits-decimal :
    (n : ℕ) (rest : Bytes)
    → starts_digit rest ≡ false
    → read_digits 0 (decimal n ++ rest) ≡ (n, rest)
unfolding decimal
read_digits-decimal n rest h =
    rw (digits_onto-append (suc n) n [] rest)
      (read_digits-digits_onto (suc n) n rest (omega arith) ∙ read_digits-stop n rest h)

pub decimal-head : (n : ℕ) → (c : ℕ) × (s : Bytes) × (decimal n ≡ c ∷ s) × (is_digit c ≡ true)
unfolding decimal
decimal-head n = digits_onto-head (suc n) n [] (omega arith)

strtol-digit :
    (c n : ℕ) (s rest : Bytes)
    → is_digit c ≡ true
    → read_digits 0 (c ∷ s) ≡ (n, rest)
    → strtol (c ∷ s) ≡ (clamp_long false n, rest)
unfolding drop_spaces read_sign starts_digit strtol
strtol-digit c n s rest d e = ground arith

-- strtol reads back what `%d` prints of a number that fits a long, and stops behind it.
pub strtol-decimal :
    (n : ℕ) (rest : Bytes)
    → n ≤ long_max
    → starts_digit rest ≡ false
    → strtol (decimal n ++ rest) ≡ (pos n, rest)
strtol-decimal n rest small h =
    let (c, s, e, d) = decimal-head n in
    let read = read_digits-decimal n rest h in
    rw e (strtol-digit c n (s ++ rest) rest d (rw e at read) ∙ clamped)
  where
    clamped : ◌≡◌ {A = ℤ × Bytes} (clamp_long false n, rest) (pos n, rest)
    clamped = unfold clamp_long in ground arith

digits_onto-All :
    (P : ℕ → Type 0) (f n : ℕ) (out : Bytes)
    → ((k : ℕ) → k < 10 → P (b'0' + k))
    → All P out
    → All P (digits_onto f n out)
unfolding digits_onto
digits_onto-All P zero n out h k = k
digits_onto-All P (suc f) n out h k = elim (Bool-cases (ltb n 10)) [
  | inl small ↦ rw small (h n (ltb→lt n 10 small), k)
  | inr big ↦
      rw big (digits_onto-All P f (n / 10) ((b'0' + n % 10) ∷ out) h (h (n % 10) (omega arith), k))
]

-- What holds of the ten digits holds of every byte that `%d` prints.
pub decimal-All : (P : ℕ → Type 0) (n : ℕ) → ((k : ℕ) → k < 10 → P (b'0' + k)) → All P (decimal n)
unfolding decimal
decimal-All P n h = digits_onto-All P (suc n) n [] h tt

abbrev pub power_of_ten : ℕ → ℕ
power_of_ten zero = 1
power_of_ten (suc k) = 10 * power_of_ten k

digits_onto-length :
    (k f n : ℕ) (out : Bytes)
    → n < power_of_ten k
    → 0 < k
    → length (digits_onto f n out) ≤ k + length out
unfolding digits_onto
digits_onto-length zero f n out h p = absurd (omega arith)
digits_onto-length (suc k) zero n out h p = omega arith
digits_onto-length (suc zero) (suc f) n out h p = rw (lt→ltb n 10 (omega arith)) (omega arith)
digits_onto-length (suc (suc k)) (suc f) n out h p = elim (Bool-cases (ltb n 10)) [
  | inl small ↦ rw small (omega arith)
  | inr big ↦
      let lower : n / 10 < power_of_ten (suc k) = divided (power_of_ten (suc k)) h in
      let shorter =
        digits_onto-length (suc k) f (n / 10) ((b'0' + n % 10) ∷ out) lower (omega arith) in
      rw big (omega (arith, shorter))
]
  where
    divided : (t : ℕ) → n < 10 * t → n / 10 < t
    divided t q = omega arith

-- A number below a power of ten has at most as many digits.
pub length-decimal : (k n : ℕ) → n < power_of_ten k → 0 < k → length (decimal n) ≤ k
unfolding decimal
length-decimal k n h p = omega (arith, digits_onto-length k (suc n) n [] h p)
