-- ===== src/Http/Buffer.antt =====
-- server/src/http.c, `ensure_capacity`.
use native.Mathlib.Nat.{pow-suc}
use ott_server.Base.{
  Bool, Bool-cases, ap, arith, if◌then◌else◌, inl, inr, leb, leb→le, ltb, ltb-false→le, refl, suc,
  zero, ℕ, ◌*◌, ◌<◌, ◌^◌, ◌≡◌, ◌≤◌, ◌⊎◌,
}

abbrev pub initial_buffer : ℕ
initial_buffer = 8192

abbrev pub max_buffer : ℕ
max_buffer = 8 * 1024 * 1024

pub data Growth : Type 0 where
  grown : ℕ → Growth
  refused : Growth
  unfinished : Growth

-- `while (new_cap < required) { new_cap *= 2; if (new_cap > HTTP_MAX_BUFFER) return -1; }`, and
-- the test behind it. `unfinished` when the fuel runs out.
unfoldable pub double_until : ℕ → ℕ → ℕ → Growth
double_until zero new_cap required = unfinished
double_until (suc f) new_cap required =
    let again =
      if ltb max_buffer (new_cap * 2) then refused else double_until f (new_cap * 2) required in
    let done = if ltb max_buffer new_cap then refused else grown new_cap in
    if ltb new_cap required then again else done

-- A positive capacity passes the maximum of 2 ^ 23 within 24 doublings.
abbrev pub growth_fuel : ℕ
growth_fuel = 26

-- The realloc behind the loop; `grants` says whether it gives that many bytes.
unfoldable pub realloc_to : (ℕ → Bool) → Growth → Growth
realloc_to grants (grown new_cap) = if grants new_cap then grown new_cap else refused
realloc_to grants refused = refused
realloc_to grants unfinished = unfinished

-- The capacity afterwards, or `refused` for -1.
unfoldable pub ensure_capacity : (ℕ → Bool) → Bool → ℕ → ℕ → Growth
unfolding double_until realloc_to
ensure_capacity grants owns capacity required =
    if leb required capacity
    then grown capacity
    else if owns
    then realloc_to grants (double_until growth_fuel (capacity * 2) required)
    else refused

-- What a result promises for the capacity and the size that were given.
abbrev pub Ensures : ℕ → ℕ → Growth → Type 0
Ensures capacity required (grown c) =
    (required ≤ c)
    × (((c ≡ capacity) × (required ≤ capacity)) ⊎ ((capacity < required) × (c ≤ max_buffer)))
Ensures capacity required refused = capacity < required
Ensures capacity required unfinished = ⊥

-- One round of the loop, with what the rest of it promises.
double_until-round :
    (f capacity new_cap required : ℕ)
    → capacity < new_cap
    → capacity < required
    → (new_cap * 2 ≤ max_buffer → Ensures capacity required (double_until f (new_cap * 2) required))
    → Ensures capacity required (double_until (suc f) new_cap required)
unfolding double_until
double_until-round f capacity new_cap required h r later =
    elim (Bool-cases (ltb new_cap required)) [
      | inl small ↦ elim (Bool-cases (ltb max_buffer (new_cap * 2))) [
        | inl over ↦ rw (small, over) r
        | inr fits ↦ rw (small, fits) (later (ltb-false→le _ _ fits))
      ]
      | inr enough ↦ elim (Bool-cases (ltb max_buffer new_cap)) [
        | inl over ↦ rw (enough, over) r
        | inr fits ↦ rw (enough, fits) (ltb-false→le _ _ enough, inr (r, ltb-false→le _ _ fits))
      ]
    ]

double_until_lem :
    (f capacity new_cap required : ℕ)
    → capacity < new_cap
    → max_buffer < new_cap * 2 ^ f
    → capacity < required
    → Ensures capacity required (double_until (suc f) new_cap required)
double_until_lem zero capacity new_cap required h m r =
    double_until-round zero capacity new_cap required h r λ k. absurd (omega arith)
double_until_lem (suc f) capacity new_cap required h m r =
    double_until-round (suc f) capacity new_cap required h r λ k.
      double_until_lem f capacity (new_cap * 2) required (omega arith)
        (omega (arith, ap (λ (t : ℕ). new_cap * t) (pow-suc 2 f))) r

realloc_to-Ensures :
    (grants : ℕ → Bool) (capacity required : ℕ) (g : Growth)
    → capacity < required
    → Ensures capacity required g
    → Ensures capacity required (realloc_to grants g)
unfolding realloc_to
realloc_to-Ensures grants capacity required (grown c) r e = elim (Bool-cases (grants c)) [
  | inl given ↦ rw given e
  | inr denied ↦ rw denied r
]
realloc_to-Ensures grants capacity required refused r e = e
realloc_to-Ensures grants capacity required unfinished r e = e

-- From a positive capacity the loop ends. A buffer that is large enough stays as it is; otherwise
-- success means a buffer with room for `required`, of at most 8 MiB. Only a buffer that is too small
-- is refused.
pub ensure_capacity_lem :
    (grants : ℕ → Bool) (owns : Bool) (capacity required : ℕ)
    → 0 < capacity
    → Ensures capacity required (ensure_capacity grants owns capacity required)
unfolding ensure_capacity
ensure_capacity_lem grants owns capacity required h = elim (Bool-cases (leb required capacity)) [
  | inl room ↦ rw room (leb→le _ _ room, inl (refl, leb→le _ _ room))
  | inr small ↦ rw small (elim (Bool-cases owns) [
    | inl own ↦ rw own (
        realloc_to-Ensures grants capacity required _ (ground arith) (
          double_until_lem 25 capacity (capacity * 2) required (omega arith) (omega arith)
            (ground arith)))
    | inr borrowed ↦ rw borrowed (ground arith)
  ])
]
