-- ===== src/Utils/Builder/Laws.antt =====
-- The string builder keeps its invariant, appends exactly the piece, and fails only for want of
-- memory or of a size that C can count.
use native.Mathlib.Nat.{pow-suc}
use ott_server.Base.{
  Bool, Bool-cases, Option-cases, ap, arith, inl, inr, length, length-append, le→ltb-false, ltb,
  ltb-false→le, ltb→lt, lt→ltb, refl, some, suc, take, take_all, true, zero, ℕ, ◌%◌, ◌*◌, ◌++◌, ◌+◌,
  ◌-◌, ◌<◌, ◌^◌, ◌∙◌, ◌≡◌, ◌≤◌, ◌⊎◌,
}
use ott_server.Cstr.{Bytes, int_max}
use ott_server.Utils.Builder.{StringBuilder, grow, grow_fuel, sb_append, sb_reserve, size_mod}

-- The text and its NUL lie inside the buffer.
pub record IsBuilder (sb : StringBuilder) : Type 0 where
  pub room : length sb.text < sb.capacity
  pub bounded : sb.capacity < 2 ^ 63

-- malloc and realloc grant no object larger than PTRDIFF_MAX.
abbrev pub IsBounded : (ℕ → ℕ → Bool) → Type 0
IsBounded malloc = (n size : ℕ) → malloc n size ≡ true → size < 2 ^ 63

grow-step :
    (f size required : ℕ)
    → size < required
    → required ≤ 2 ^ 63
    → grow (suc f) size required ≡ grow f (size * 2) required
unfolding grow
grow-step f size required more k = rw (lt→ltb _ _ more) (ap (λ c. grow f c required) (omega arith))

grow-stop : (f size required : ℕ) → required ≤ size → grow (suc f) size required ≡ some size
unfolding grow
grow-stop f size required h = rw (le→ltb-false _ _ h)

-- Doubling ends: from a positive capacity, `f + 1` rounds reach any size up to `size * 2 ^ f`.
pub grow-enough :
    (f size required : ℕ)
    → 0 < size
    → required ≤ 2 ^ 63
    → required ≤ size * 2 ^ f
    → (c : ℕ) × (grow (suc f) size required ≡ some c)
      × (required ≤ c)
      × ((c ≡ size) ⊎ (c < 2 * required))
grow-enough zero size required h k e =
    (size, grow-stop zero size required (omega arith), omega arith, inl refl)
grow-enough (suc f) size required h k e = elim (Bool-cases (ltb size required)) [
  | inl more ↦
      let m : size < required = ltb→lt _ _ more in
      let (c, g, a, b) =
        grow-enough f (size * 2) required (omega arith) k
          (omega (arith, ap (λ (t : ℕ). size * t) (pow-suc 2 f))) in
      (c, grow-step (suc f) size required m k ∙ g, a, omega arith)
  | inr done ↦
      let d : required ≤ size = ltb-false→le _ _ done in
      (size, grow-stop (suc f) size required d, d, inl refl)
]

grow_sound : (f size required c : ℕ) → grow f size required ≡ some c → required ≤ c
unfolding grow
grow_sound zero size required c e = cc
grow_sound (suc f) size required c e = ground (arith, grow_sound f (size * 2 % size_mod) required c)

append-into :
    (r sb : StringBuilder) (piece : Bytes) (sb' : StringBuilder)
    → IsBuilder sb
    → length piece ≤ int_max
    → (r.text ≡ sb.text)
      × ((length sb.text + length piece + 1) % size_mod ≤ r.capacity)
      × (r.capacity < 2 ^ 63)
    → some (record r { text = r.text ++ take (r.capacity - length r.text - 1) piece }) ≡ some sb'
    → (sb'.text ≡ sb.text ++ piece) × IsBuilder sb'
append-into r sb piece sb' v small (same, room, bound) e =
    ground (arith, whole, ap length same, length-append r.text piece)
  where
    whole : take (r.capacity - length r.text - 1) piece ≡ piece
    whole = take_all _ piece (omega (arith, ap length same, v.room, v.bounded))

module _ (malloc : ℕ → ℕ → Bool) where
  -- A reserve that succeeds has the room asked for, and the same text.
  reserve_sound :
      (sb : StringBuilder) (required : ℕ) (r : StringBuilder)
      → IsBounded malloc
      → sb.capacity < 2 ^ 63
      → sb_reserve malloc sb required ≡ some r
      → (r.text ≡ sb.text) × (required ≤ r.capacity) × (r.capacity < 2 ^ 63)
  unfolding sb_reserve
  reserve_sound sb required r b k e = elim (Bool-cases (ltb sb.capacity required)) [
    | inl more ↦ elim (Option-cases (grow grow_fuel sb.capacity required)) [
      | inl stuck ↦ ground arith
      | inr (size, g) ↦
          ground (arith, grow_sound grow_fuel sb.capacity required size g, b sb.allocations size)
    ]
    | inr enough ↦ ground arith
  ]

  -- A successful append adds the whole piece and keeps the invariant.
  pub sb_append_lem :
      (sb : StringBuilder) (piece : Bytes) (sb' : StringBuilder)
      → IsBounded malloc
      → IsBuilder sb
      → sb_append malloc sb piece ≡ some sb'
      → (sb'.text ≡ sb.text ++ piece) × IsBuilder sb'
  unfolding sb_append
  sb_append_lem sb piece sb' b v e =
      let required = (length sb.text + length piece + 1) % size_mod in
      elim (Bool-cases (ltb int_max (length piece))) [
        | inl huge ↦ absurd (cc (rw huge at e))
        | inr small ↦ elim (Option-cases (sb_reserve malloc sb required)) [
          | inl full ↦ absurd (cc (rw (small, full) at e))
          | inr (r, s) ↦
              append-into r sb piece sb' v (ltb-false→le _ _ small)
                (reserve_sound sb required r b v.bounded s) (rw (small, s) at e)
        ]
      ]

  reserve_total :
      (sb : StringBuilder) (required : ℕ)
      → ((n size : ℕ) → size < 2 ^ 63 → malloc n size ≡ true)
      → 0 < sb.capacity
      → sb.capacity < 2 ^ 63
      → required ≤ 2 ^ 62
      → (r : StringBuilder) × (sb_reserve malloc sb required ≡ some r)
  unfolding sb_reserve
  reserve_total sb required grants p k fits = elim (Bool-cases (ltb sb.capacity required)) [
    | inl more ↦
        let (size, g, _, bound) =
          grow-enough 64 sb.capacity required p (omega arith) (omega arith) in
        let granted = grants sb.allocations size (omega arith) in
        (record sb { capacity = size; allocations = sb.allocations + 1 }, rw (more, g, granted))
    | inr enough ↦ (sb, rw enough)
  ]

  -- If malloc grants every object below 2^63 bytes, an append to a well-formed builder of a piece
  -- within INT_MAX, with less than 2^62 bytes in all, succeeds: the growth loop ends within its fuel.
  pub sb_append_total :
      (sb : StringBuilder) (piece : Bytes)
      → ((n size : ℕ) → size < 2 ^ 63 → malloc n size ≡ true)
      → IsBuilder sb
      → length piece ≤ int_max
      → length sb.text + length piece < 2 ^ 62
      → (sb' : StringBuilder) × (sb_append malloc sb piece ≡ some sb')
  unfolding sb_append
  sb_append_total sb piece grants v small fits =
      let required = (length sb.text + length piece + 1) % size_mod in
      let (r, e) =
        reserve_total sb required grants (omega (arith, v.room)) v.bounded (omega arith) in
      (
        record r { text = r.text ++ take (r.capacity - length r.text - 1) piece },
        rw (le→ltb-false _ _ small, e),
      )
