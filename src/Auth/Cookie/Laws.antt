-- ===== src/Auth/Cookie/Laws.antt =====
-- `parse_cookie` ends, and finds the cookies of a header that a client writes.
use ott_server.Auth.Cookie.{
  at_pair, continue, cookie_loop, drop_separators, parse_cookie, take_value, value_and_rest,
}
use ott_server.Auth.Names.{trim_end}
use ott_server.Base.{
  All, Bool, Bool-cases, List, Option, [], ap, arith, false, if◌then◌else◌, inl, inr, length,
  length-append, none, refl, some, suc, take_all, true, zero, ℕ, ◌++◌, ◌+◌, ◌-◌, ◌<◌, ◌==◌, ◌||◌,
  ◌∙◌, ◌∷◌, ◌≡◌, ◌≢◌, ◌≤◌,
}
use ott_server.Cstr.{Bytes, lookup, split_at, split_at-append, split_at_sound, str_eq}
use ott_server.Http.Read.{Outcome, ok, or_fail, stuck}

-- A separator of cookies.
abbrev is_separator : ℕ → Bool
is_separator c = c == b' ' || c == b';'

drop_separators-length : (s : Bytes) → length (drop_separators s) ≤ length s
unfolding drop_separators
drop_separators-length [] = omega arith
drop_separators-length (c ∷ s) = ground (arith, drop_separators-length s)

split_at-length : (sep : ℕ) (s a b : Bytes) → split_at sep s ≡ some (a, b) → length b < length s
split_at-length sep s a b e =
    omega (arith, ap length (split_at_sound sep s a b e), length-append a (sep ∷ b))

module _ (name : Bytes) (len : ℕ) where
  take_value_ends :
      (next : Bytes → Outcome Bytes) (key after : Bytes) (parts : Option (Bytes × Bytes))
      → ((rest : Bytes) → length rest ≤ length after → next rest ≢ stuck)
      → ((value rest : Bytes) → parts ≡ some (value, rest) → length rest < length after)
      → take_value name len next key (value_and_rest after parts) ≢ stuck
  take_value_ends next key after none h k = elim (Bool-cases (str_eq key name)) [
    | inl same ↦ rw same (λ e. absurd cc)
    | inr other ↦ rw other (λ e. absurd cc)
  ]
  take_value_ends next key after (some (value, rest)) h k = elim (Bool-cases (str_eq key name)) [
    | inl same ↦ rw same (λ e. absurd cc)
    | inr other ↦ let size = k value rest refl in rw other (h rest (omega arith))
  ]

  cookie_loop_ends : (f : ℕ) (s : Bytes) → length s < f → cookie_loop name len f s ≢ stuck
  unfolding cookie_loop
  cookie_loop_ends zero s h = absurd (omega arith)
  cookie_loop_ends (suc f) [] h = λ e. absurd cc
  cookie_loop_ends (suc f) (c ∷ s) h =
      go (split_at b'=' (drop_separators (c ∷ s))) (split_at-length b'=' (drop_separators (c ∷ s)))
        (λ rest. cookie_loop_ends f rest) (drop_separators-length (c ∷ s))
    where
      go :
          (found : Option (Bytes × Bytes))
          → ((key after : Bytes)
              → found ≡ some (key, after)
              → length after < length (drop_separators (c ∷ s)))
          → ((rest : Bytes) → length rest < f → cookie_loop name len f rest ≢ stuck)
          → length (drop_separators (c ∷ s)) ≤ suc (length s)
          → at_pair name len (λ rest. cookie_loop name len f rest) found ≢ stuck
      go none k again room = λ e. absurd cc
      go (some (key, after)) k again room =
          let size = k key after refl in
          take_value_ends (λ rest. cookie_loop name len f rest) key after (split_at b';' after)
            (λ rest small. again rest (omega arith)) (split_at-length b';' after)

  -- The fuel is enough: the search of a cookie ends on every header.
  pub parse_cookie_ends : (header : Bytes) → parse_cookie name len header ≢ stuck
  unfolding parse_cookie
  parse_cookie_ends header = elim (Bool-cases (len == 0)) [
    | inl empty ↦ rw empty (λ e. absurd cc)
    | inr room ↦ rw room (cookie_loop_ends (length header + 1) header (omega arith))
  ]

-- A key without separators and `=`; a value without `;` and without white space at its end, that
-- fits the buffer.
abbrev pub IsCookie : ℕ → Bytes × Bytes → Type 0
IsCookie len kv =
    All (λ c. (is_separator c ≡ false) × ((c == b'=') ≡ false)) kv.0
    × All (λ c. (c == b';') ≡ false) kv.1
    × (trim_end kv.1 ≡ kv.1)
    × (length kv.1 < len)

-- The header of a list of names and values: `a=b; c=d`.
abbrev pub build_cookies : List (Bytes × Bytes) → Bytes
build_cookies [] = []
build_cookies (kv ∷ []) = kv.0 ++ b'=' ∷ kv.1
build_cookies (kv ∷ next ∷ kvs) = kv.0 ++ b'=' ∷ (kv.1 ++ b';' ∷ b' ' ∷ build_cookies (next ∷ kvs))

drop_separators_plain :
    (k t : Bytes)
    → All (λ c. (is_separator c ≡ false) × ((c == b'=') ≡ false)) k
    → drop_separators (k ++ b'=' ∷ t) ≡ k ++ b'=' ∷ t
unfolding drop_separators
drop_separators_plain [] t h = refl
drop_separators_plain (c ∷ k) t h = rw h.0.0

key_plain :
    (k : Bytes)
    → All (λ c. (is_separator c ≡ false) × ((c == b'=') ≡ false)) k
    → All (λ c. (c == b'=') ≡ false) k
key_plain [] h = tt
key_plain (c ∷ k) h = (h.0.1, key_plain k h.1)

split_at-none : (sep : ℕ) (s : Bytes) → All (λ c. (c == sep) ≡ false) s → split_at sep s ≡ none
unfolding split_at
split_at-none sep [] h = refl
split_at-none sep (c ∷ s) h = rw (h.0, split_at-none sep s h.1)

build_cookies-cons :
    (kv : Bytes × Bytes) (kvs : List (Bytes × Bytes))
    → (c : ℕ) × (s : Bytes) × (build_cookies (kv ∷ kvs) ≡ c ∷ s)
build_cookies-cons ([], v) [] = (b'=', v, refl)
build_cookies-cons (c ∷ k, v) [] = (c, k ++ b'=' ∷ v, refl)
build_cookies-cons ([], v) (next ∷ kvs) =
    (b'=', v ++ b';' ∷ b' ' ∷ build_cookies (next ∷ kvs), refl)
build_cookies-cons (c ∷ k, v) (next ∷ kvs) =
    (c, k ++ b'=' ∷ (v ++ b';' ∷ b' ' ∷ build_cookies (next ∷ kvs)), refl)

module _ (name : Bytes) (len : ℕ) where
  take_value_kept :
      (next : Bytes → Outcome Bytes) (kv : Bytes × Bytes) (rest : Option Bytes)
      → trim_end kv.1 ≡ kv.1
      → length kv.1 < len
      → take_value name len next kv.0 (kv.1, rest)
        ≡ (if str_eq kv.0 name then ok kv.1 else continue next rest)
  take_value_kept next kv rest h k = rw (take_all (len - 1) kv.1 (omega arith), h)

  cookie_loop-pair :
      (f : ℕ) (kv : Bytes × Bytes) (after : Bytes)
      → IsCookie len kv
      → cookie_loop name len (suc f) (kv.0 ++ b'=' ∷ after)
        ≡ take_value name len
            (λ rest. cookie_loop name len f rest)
            kv.0
            (value_and_rest after (split_at b';' after))
  unfolding cookie_loop
  cookie_loop-pair f ([], v) after h =
      rw (drop_separators_plain [] after tt, split_at-append b'=' [] after tt) refl
  cookie_loop-pair f (c ∷ k, v) after h =
      rw
        (
          drop_separators_plain (c ∷ k) after h.0,
          split_at-append b'=' (c ∷ k) after (key_plain (c ∷ k) h.0),
        )
        refl

  cookie_loop-space :
      (f c : ℕ) (s : Bytes) → cookie_loop name len f (b' ' ∷ c ∷ s) ≡ cookie_loop name len f (c ∷ s)
  unfolding cookie_loop drop_separators
  cookie_loop-space zero c s = refl
  cookie_loop-space (suc f) c s = refl

  decide :
      (b : Bool) (v : Bytes) (more : Option Bytes)
      → (if b then ok v else or_fail more) ≡ or_fail (if b then some v else more)
  decide true v more = refl
  decide false v more = refl

  cookie_loop-build_cookies :
      (f : ℕ) (kvs : List (Bytes × Bytes))
      → All (IsCookie len) kvs
      → length (build_cookies kvs) < f
      → cookie_loop name len f (build_cookies kvs) ≡ or_fail (lookup name kvs)
  cookie_loop-build_cookies zero kvs h k = absurd (omega arith)
  cookie_loop-build_cookies (suc f) [] h k = unfold cookie_loop in refl
  cookie_loop-build_cookies (suc f) (kv ∷ []) h k =
      rw (cookie_loop-pair f kv kv.1 h.0, split_at-none b';' kv.1 h.0.1)
        (take_value_kept (λ rest. cookie_loop name len f rest) kv none h.0.2 h.0.3
          ∙ decide (str_eq kv.0 name) kv.1 none)
  cookie_loop-build_cookies (suc f) (kv ∷ next ∷ kvs) h k =
      let (c, s, e) = build_cookies-cons next kvs in
      let later = build_cookies (next ∷ kvs) in
      let small : length later < f = omega (
        arith,
        length-append kv.0 (b'=' ∷ (kv.1 ++ b';' ∷ b' ' ∷ later)),
        length-append kv.1 (b';' ∷ b' ' ∷ later),
      ) in
      let again = cookie_loop-build_cookies f (next ∷ kvs) h.1 small in
      let spaced : cookie_loop name len f (b' ' ∷ later) ≡ cookie_loop name len f later =
        rw e (cookie_loop-space f c s) in
      rw
        (
          cookie_loop-pair f kv (kv.1 ++ b';' ∷ b' ' ∷ later) h.0,
          split_at-append b';' kv.1 (b' ' ∷ later) h.0.1,
        )
        (take_value_kept (λ rest. cookie_loop name len f rest) kv (some (b' ' ∷ later)) h.0.2 h.0.3
          ∙ rw (spaced, again) (decide (str_eq kv.0 name) kv.1 (lookup name (next ∷ kvs))))

  -- In a header of names and values as clients write it, a name has the value of its first cookie,
  -- and a name that no cookie has is not found.
  pub parse_cookie-build_cookies :
      (kvs : List (Bytes × Bytes))
      → 0 < len
      → All (IsCookie len) kvs
      → parse_cookie name len (build_cookies kvs) ≡ or_fail (lookup name kvs)
  unfolding parse_cookie
  parse_cookie-build_cookies kvs room h =
      let free : (len == 0) ≡ false = ground arith in
      rw free (cookie_loop-build_cookies (length (build_cookies kvs) + 1) kvs h (omega arith))
