-- ===== src/Video/Range/Laws.antt =====
-- What the ranges that `parse_range_header` accepts are.
use ott_server.Base.{
  Bool-cases, Option, [], append-nil, arith, drop, false, inl, inr, leb_ℤ, ltb, ltb_ℤ, negsuc, none,
  pos, refl, some, suc, zero, ℕ, ℤ, ◌++◌, ◌-◌, ◌<◌, ◌==◌, ◌||◌, ◌∷◌, ◌≡◌, ◌≤◌,
}
use ott_server.Cstr.{
  Bytes, codes, decimal, decimal-All, decimal-head, long_max, split_at, split_at-append,
  starts_digit, starts_with, strtol, strtol-decimal,
}
use ott_server.Video.Range.{
  end_at, end_range, parse_range_header, range_bounds, start_at, suffix_range,
}

suffix_range_bounds :
    (file_size : ℕ) (v a b : ℤ)
    → 0 < file_size
    → suffix_range file_size v ≡ some (a, b)
    → (first last : ℕ) × (a ≡ pos first) × (b ≡ pos last) × (first ≤ last) × (last < file_size)
suffix_range_bounds file_size (negsuc n) a b h e = absurd cc
suffix_range_bounds file_size (pos zero) a b h e = absurd cc
suffix_range_bounds file_size (pos (suc n)) a b h e = elim (Bool-cases (ltb file_size (suc n))) [
  | inl longer ↦ (0, file_size - 1, ground arith, ground arith, omega arith, omega arith)
  | inr fits ↦
      (file_size - suc n, file_size - 1, ground arith, ground arith, ground arith, omega arith)
]

end_at_bounds :
    (file_size first : ℕ) (v a b : ℤ)
    → first < file_size
    → end_at file_size (pos first) v ≡ some (a, b)
    → (a ≡ pos first) × (last : ℕ) × (b ≡ pos last) × (first ≤ last) × (last < file_size)
end_at_bounds file_size first (negsuc n) a b h k = absurd (ground arith)
end_at_bounds file_size first (pos n) a b h k = elim (Bool-cases (ltb n file_size)) [
  | inl inside ↦ (ground arith, n, ground arith, ground arith, ground arith)
  | inr outside ↦ (ground arith, file_size - 1, ground arith, omega arith, omega arith)
]

end_range_bounds :
    (file_size first : ℕ) (after : Bytes) (a b : ℤ)
    → first < file_size
    → end_range file_size (pos first) after ≡ some (a, b)
    → (a ≡ pos first) × (last : ℕ) × (b ≡ pos last) × (first ≤ last) × (last < file_size)
end_range_bounds file_size first [] a b h e =
    (ground arith, file_size - 1, ground arith, omega arith, omega arith)
end_range_bounds file_size first (c ∷ s) a b h e =
    end_at_bounds file_size first (strtol (c ∷ s)).0 a b h e

start_at_bounds :
    (file_size : ℕ) (after : Bytes) (v a b : ℤ)
    → start_at file_size after v ≡ some (a, b)
    → (first last : ℕ) × (a ≡ pos first) × (b ≡ pos last) × (first ≤ last) × (last < file_size)
start_at_bounds file_size after (negsuc n) a b k = absurd (ground arith)
start_at_bounds file_size after (pos n) a b k =
    elim (Bool-cases (ltb_ℤ (pos n) (pos 0) || leb_ℤ (pos file_size) (pos n))) [
      | inl outside ↦ absurd (cc (rw outside at k))
      | inr inside ↦
          let (same, last, found, order, small) =
            end_range_bounds file_size n after a b (ground arith) (rw inside at k) in
          (n, last, same, found, order, small)
    ]

range_bounds_lem :
    (file_size : ℕ) (range : Bytes) (parts : Option (Bytes × Bytes)) (a b : ℤ)
    → 0 < file_size
    → range_bounds file_size range parts ≡ some (a, b)
    → (first last : ℕ) × (a ≡ pos first) × (b ≡ pos last) × (first ≤ last) × (last < file_size)
range_bounds_lem file_size range none a b h e = absurd cc
range_bounds_lem file_size range (some ([], after)) a b h e =
    suffix_range_bounds file_size (strtol after).0 a b h e
range_bounds_lem file_size range (some (c ∷ before, after)) a b h e =
    start_at_bounds file_size after (strtol range).0 a b e

-- A range accepted for a file that is not empty lies in the file: it starts at or before its end,
-- and ends before the file does.
pub parse_range_header_bounds :
    (header : Bytes) (file_size : ℕ) (a b : ℤ)
    → 0 < file_size
    → parse_range_header header file_size ≡ some (a, b)
    → (first last : ℕ) × (a ≡ pos first) × (b ≡ pos last) × (first ≤ last) × (last < file_size)
unfolding parse_range_header
parse_range_header_bounds header file_size a b h e =
    elim (Bool-cases (starts_with (codes "bytes=") header)) [
      | inl bytes ↦
          range_bounds_lem file_size (drop 6 header) (split_at b'-' (drop 6 header)) a b h
            (rw bytes at e)
      | inr other ↦ absurd (cc (rw other at e))
    ]

-- The digits of a number hold no dash.
split_at-decimal :
    (n : ℕ) (s : Bytes)
    → (c : ℕ) × (digits : Bytes) × (split_at b'-' (decimal n ++ b'-' ∷ s) ≡ some (c ∷ digits, s))
split_at-decimal n s =
    let (c, digits, e, _) = decimal-head n in
    (
      c,
      digits,
      rw (← e) (
          split_at-append b'-' (decimal n) s
            (decimal-All (λ c. (c == b'-') ≡ false) n (λ k h. ground arith))),
    )

strtol-whole : (n : ℕ) → n ≤ long_max → strtol (decimal n) ≡ (pos n, [])
strtol-whole n h =
    rw (append-nil (decimal n)) at (strtol-decimal n [] h (unfold starts_digit in refl))

-- "bytes=first-last" with first ≤ last < the size of the file is read as these two numbers.
pub parse_range_header-decimal :
    (first last file_size : ℕ)
    → first ≤ last
    → last < file_size
    → file_size ≤ long_max
    → parse_range_header (codes "bytes=" ++ (decimal first ++ b'-' ∷ decimal last)) file_size
      ≡ some (pos first, pos last)
unfolding parse_range_header starts_with starts_digit
parse_range_header-decimal first last file_size h k small =
    let (c, digits, e) = split_at-decimal first (decimal last) in
    let start = strtol-decimal first (b'-' ∷ decimal last) (omega arith) refl in
    let stop = strtol-whole last (omega arith) in
    let (d, more, shown, _) = decimal-head last in
    rw (e, start) (rw shown (rw (rw shown at stop) (ground arith)))
