-- ===== src/Cstr/Search.antt =====
-- Bytes, character classes, comparison and search: ctype.h, string.h and strings.h.
use Prim.Native.Char.{code}
use Prim.Native.String.{String}
use ott_server.Base.{
  ==_iff, ==_refl, All, Bool, Bool-cases, List, Option, Option-cases, [], and_iff, ap₂, arith, drop,
  false, if◌then◌else◌, inl, inr, leb, length, map, none, refl, some, sym, take, true, ℕ, ◌&&◌,
  ◌++◌, ◌+◌, ◌-◌, ◌==◌, ◌||◌, ◌↔◌, ◌∷◌, ◌≡◌,
}

abbrev pub Bytes : Type 0
Bytes = List ℕ

-- The code points of a text: its bytes, since every literal here is ASCII.
abbrev pub codes : String → Bytes
codes String.[] = []
codes (String.◌∷◌ c s) = code c ∷ codes s

abbrev pub within : ℕ → ℕ → ℕ → Bool
within lo hi c = leb lo c && leb c hi

-- isspace: space, \t, \n, \v, \f, \r.
abbrev pub is_space : ℕ → Bool
is_space c = c == b' ' || within 9 13 c

abbrev pub is_digit : ℕ → Bool
is_digit c = within b'0' b'9' c

abbrev pub is_alnum : ℕ → Bool
is_alnum c = is_digit c || within b'a' b'z' c || within b'A' b'Z' c

abbrev pub to_lower : ℕ → ℕ
to_lower c = if within b'A' b'Z' c then c + 32 else c

-- strcmp (a, b) == 0
unfoldable pub str_eq : Bytes → Bytes → Bool
str_eq [] [] = true
str_eq (x ∷ a) (y ∷ b) = x == y && str_eq a b
str_eq _ _ = false

-- strcasecmp (a, b) == 0
unfoldable pub str_case_eq : Bytes → Bytes → Bool
unfolding str_eq
str_case_eq a b = str_eq (map to_lower a) (map to_lower b)

-- strncmp (s, p, strlen (p)) == 0
unfoldable pub starts_with : Bytes → Bytes → Bool
starts_with [] s = true
starts_with (x ∷ p) [] = false
starts_with (x ∷ p) (y ∷ s) = x == y && starts_with p s

-- strchr: what stands before the first `c`, and what stands behind it.
unfoldable pub split_at : ℕ → Bytes → Option (Bytes × Bytes)
split_at c [] = none
split_at c (x ∷ s) =
    let rest = split_at c s in
    if x == c then some ([], s) else elim rest [ none ↦ none | some (a, b) ↦ some (x ∷ a, b) ]

-- strrchr: the bytes before the last `c`, and those behind it.
unfoldable pub split_at_last : ℕ → Bytes → Option (Bytes × Bytes)
split_at_last c [] = none
split_at_last c (x ∷ s) = elim (split_at_last c s) [
  | some (a, b) ↦ some (x ∷ a, b)
  | none ↦ if x == c then some ([], s) else none
]

-- strstr: what stands before the first occurrence of `p`, and what stands behind it.
unfoldable pub split_on : Bytes → Bytes → Option (Bytes × Bytes)
unfolding starts_with
split_on p [] = if starts_with p [] then some ([], []) else none
split_on p (x ∷ s) =
    let rest = split_on p s in
    if starts_with p (x ∷ s)
    then some ([], drop (length p) (x ∷ s))
    else elim rest [ none ↦ none | some (a, b) ↦ some (x ∷ a, b) ]

-- snprintf (out, size, "%s", s): what the buffer holds.
abbrev pub truncated : ℕ → Bytes → Bytes
truncated size s = take (size - 1) s

unfoldable pub drop_spaces : Bytes → Bytes
drop_spaces [] = []
drop_spaces (c ∷ s) = let rest = drop_spaces s in if is_space c then rest else c ∷ s

-- The parts of a text between the bytes `c`; the part behind the last one only if it is not empty.
abbrev pub onto_first : ℕ → List Bytes → List Bytes
onto_first c [] = (c ∷ []) ∷ []
onto_first c (part ∷ parts) = (c ∷ part) ∷ parts

unfoldable pub split_all : ℕ → Bytes → List Bytes
split_all sep [] = []
split_all sep (c ∷ s) =
    let rest = split_all sep s in if c == sep then [] ∷ rest else onto_first c rest

-- The value of a key's first occurrence.
abbrev pub lookup : Bytes → List (Bytes × Bytes) → Option Bytes
lookup name [] = none
lookup name (kv ∷ kvs) = if str_eq kv.0 name then some kv.1 else lookup name kvs

pub str_eq_iff : (a b : Bytes) → (str_eq a b ≡ true) ↔ (a ≡ b)
unfolding str_eq
str_eq_iff (x ∷ a) (y ∷ b) = ground (arith, str_eq_iff a b)
str_eq_iff _ _ = ground arith

pub str_eq_refl : (a : Bytes) → str_eq a a ≡ true
str_eq_refl a = (str_eq_iff a a).1 refl

pub starts_with-append : (p t : Bytes) → starts_with p (p ++ t) ≡ true
unfolding starts_with
starts_with-append [] t = refl
starts_with-append (x ∷ p) t = rw (==_refl x, starts_with-append p t)

pub drop-append : (p t : Bytes) → drop (length p) (p ++ t) ≡ t
drop-append [] t = refl
drop-append (x ∷ p) t = drop-append p t

-- The pattern is found behind a prefix that does not hold its first byte.
pub split_on-prefix :
    (x : ℕ) (p pre t : Bytes)
    → All (λ c. (x == c) ≡ false) pre
    → split_on (x ∷ p) (pre ++ ((x ∷ p) ++ t)) ≡ some (pre, t)
unfolding split_on
split_on-prefix x p [] t h = rw (starts_with-append (x ∷ p) t, drop-append p t)
split_on-prefix x p (c ∷ pre) t h =
    rw (split_on-prefix x p pre t h.1) (unfold starts_with in rw h.0)

-- The first separator is found behind bytes that are none.
pub split_at-append :
    (sep : ℕ) (s t : Bytes)
    → All (λ c. (c == sep) ≡ false) s
    → split_at sep (s ++ sep ∷ t) ≡ some (s, t)
unfolding split_at
split_at-append sep [] t h = rw (==_refl sep)
split_at-append sep (c ∷ s) t h = rw (h.0, split_at-append sep s t h.1)

starts_with-drop : (p s : Bytes) → starts_with p s ≡ true → s ≡ p ++ drop (length p) s
unfolding starts_with
starts_with-drop [] s h = refl
starts_with-drop (x ∷ p) [] h = absurd cc
starts_with-drop (x ∷ p) (y ∷ s) h =
    let (same, more) = (and_iff (x == y) (starts_with p s)).0 h in
    ap₂ ◌∷◌ (sym ((==_iff x y).0 same)) (starts_with-drop p s more)

-- A search that succeeds splits the text round the pattern.
pub split_on_sound : (p s a t : Bytes) → split_on p s ≡ some (a, t) → s ≡ a ++ (p ++ t)
unfolding split_on
split_on_sound [] [] a t e = ground arith
split_on_sound (y ∷ p) [] a t e = absurd cc
split_on_sound p (x ∷ s) a t e = elim (Bool-cases (starts_with p (x ∷ s))) [
  | inl here ↦
      let found : ◌≡◌ {A = Option (Bytes × Bytes)} (some ([], drop (length p) (x ∷ s)))
          (some (a, t)) =
        rw here at e in
      ground (arith, starts_with-drop p (x ∷ s) here)
  | inr later ↦ elim (Option-cases (split_on p s)) [
    | inl missing ↦ absurd (cc (rw (later, missing) at e))
    | inr ((b, u), found) ↦
        let same : ◌≡◌ {A = Option (Bytes × Bytes)} (some (x ∷ b, u)) (some (a, t)) =
          rw (later, found) at e in
        ground (arith, split_on_sound p s b u found)
  ]
]

-- A split at a separator is one.
pub split_at_sound : (sep : ℕ) (s a t : Bytes) → split_at sep s ≡ some (a, t) → s ≡ a ++ sep ∷ t
unfolding split_at
split_at_sound sep [] a t e = absurd cc
split_at_sound sep (x ∷ s) a t e = elim (Bool-cases (x == sep)) [
  | inl here ↦
      let found : ◌≡◌ {A = Option (Bytes × Bytes)} (some ([], s)) (some (a, t)) = rw here at e in
      ground (arith, (==_iff x sep).0 here)
  | inr later ↦ elim (Option-cases (split_at sep s)) [
    | inl missing ↦ absurd (cc (rw (later, missing) at e))
    | inr ((b, u), found) ↦
        let same : ◌≡◌ {A = Option (Bytes × Bytes)} (some (x ∷ b, u)) (some (a, t)) =
          rw (later, found) at e in
        ground (arith, split_at_sound sep s b u found)
  ]
]
