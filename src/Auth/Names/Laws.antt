-- ===== src/Auth/Names/Laws.antt =====
-- What trimming leaves, and which names are valid.
use ott_server.Auth.Names.{
  all_name_bytes, is_name_byte, is_valid_username, keep_or_drop, trim_end, trim_whitespace,
}
use ott_server.Base.{
  All, Bool-cases, [], ap, arith, false, inl, inr, length, ltb, refl, true, ◌++◌, ◌||◌, ◌↔◌, ◌∙◌,
  ◌∷◌, ◌≡◌, ◌≤◌,
}
use ott_server.Cstr.{Bytes, drop_spaces, is_space}

-- No white space at the start.
abbrev pub StartsPlain : Bytes → Type 0
StartsPlain [] = Unit
StartsPlain (c ∷ s) = is_space c ≡ false

-- No white space at the end.
abbrev pub EndsPlain : Bytes → Type 0
EndsPlain [] = Unit
EndsPlain (c ∷ []) = is_space c ≡ false
EndsPlain (c ∷ d ∷ s) = EndsPlain (d ∷ s)

drop_spaces_lem :
    (s : Bytes)
    → (pre : Bytes) × (s ≡ pre ++ drop_spaces s)
      × All (λ c. is_space c ≡ true) pre
      × StartsPlain (drop_spaces s)
unfolding drop_spaces
drop_spaces_lem [] = ([], refl, tt, tt)
drop_spaces_lem (c ∷ s) = elim (Bool-cases (is_space c)) [
  | inl space ↦
      let (pre, split, spaces, plain) = drop_spaces_lem s in
      rw space (c ∷ pre, ap (◌∷◌ c) split, (space, spaces), plain)
  | inr other ↦ rw other ([], refl, tt, other)
]

trim_end_lem :
    (s : Bytes)
    → (trail : Bytes) × (s ≡ trim_end s ++ trail)
      × All (λ c. is_space c ≡ true) trail
      × EndsPlain (trim_end s)
      × (StartsPlain s → StartsPlain (trim_end s))
unfolding trim_end
trim_end_lem [] = ([], refl, tt, tt, λ h. tt)
trim_end_lem (c ∷ s) =
    let (trail, split, spaces, plain, _) = trim_end_lem s in
    go (trim_end s) trail split spaces plain
  where
    go :
        (rest trail : Bytes)
        → s ≡ rest ++ trail
        → All (λ d. is_space d ≡ true) trail
        → EndsPlain rest
        → (trail' : Bytes) × (c ∷ s ≡ keep_or_drop c rest ++ trail')
          × All (λ d. is_space d ≡ true) trail'
          × EndsPlain (keep_or_drop c rest)
          × (is_space c ≡ false → StartsPlain (keep_or_drop c rest))
    go [] trail split spaces plain = elim (Bool-cases (is_space c)) [
      | inl space ↦ rw space (c ∷ trail, ap (◌∷◌ c) split, (space, spaces), tt, λ h. tt)
      | inr other ↦ rw other (trail, ap (◌∷◌ c) split, spaces, other, λ h. other)
    ]
    go (d ∷ rest) trail split spaces plain = (trail, ap (◌∷◌ c) split, spaces, plain, λ h. h)

-- Trimming takes white space off both ends, and leaves none there.
pub trim_whitespace_lem :
    (s : Bytes)
    → (pre trail : Bytes) × (s ≡ pre ++ (trim_whitespace s ++ trail))
      × All (λ c. is_space c ≡ true) pre
      × All (λ c. is_space c ≡ true) trail
      × StartsPlain (trim_whitespace s)
      × EndsPlain (trim_whitespace s)
unfolding trim_whitespace
trim_whitespace_lem s =
    let (pre, split, spaces, start) = drop_spaces_lem s in
    let (trail, cut, more, stop, kept) = trim_end_lem (drop_spaces s) in
    (pre, trail, split ∙ ap (◌++◌ pre) cut, spaces, more, kept start, stop)

all_name_bytes_iff : (s : Bytes) → (all_name_bytes s ≡ true) ↔ All (λ c. is_name_byte c ≡ true) s
unfolding all_name_bytes
all_name_bytes_iff [] = ((λ h. tt), λ h. refl)
all_name_bytes_iff (c ∷ s) = elim (Bool-cases (is_name_byte c)) [
  | inl plain ↦
      rw plain ((λ h. (refl, (all_name_bytes_iff s).0 h)), λ h. (all_name_bytes_iff s).1 h.1)
  | inr other ↦ rw other ((λ h. absurd (cc h)), λ h. h.0)
]

-- A name is valid exactly when it has 3 to 32 bytes, each a letter, a digit, `-`, `_` or `.`.
pub is_valid_username_iff :
    (username : Bytes)
    → (is_valid_username username ≡ true)
      ↔ ((3 ≤ length username) × (length username ≤ 32) × All (λ c. is_name_byte c ≡ true) username)
unfolding is_valid_username
is_valid_username_iff username =
    elim (Bool-cases (ltb (length username) 3 || ltb 32 (length username))) [
      | inl outside ↦ rw outside ((λ h. absurd (cc h)), λ h. absurd (ground (arith, h.0, h.1)))
      | inr inside ↦ rw inside (
        (λ h. (ground arith, ground arith, (all_name_bytes_iff username).0 h)),
        λ h. (all_name_bytes_iff username).1 h.2,
      )
    ]
