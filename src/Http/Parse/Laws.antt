-- ===== src/Http/Parse/Laws.antt =====
-- What the header loop of `http_parse_request` stores.
use ott_server.Base.{
  All, Bool-cases, List, Option, [], arith, inl, inr, length, ltb, none, refl, some, ℕ, ◌+◌, ◌∷◌,
  ◌≡◌, ◌≤◌,
}
use ott_server.Cstr.{Bytes, split_at}
use ott_server.Http.{Header}
use ott_server.Http.Parse.{collect_headers, header_slots, store}

module _ (generation count : ℕ) (rest stored : List Header) where
  length-store :
      (o : Option (Bytes × Bytes))
      → length rest + count ≤ header_slots
      → (count + 1 ≤ header_slots → length stored + (count + 1) ≤ header_slots)
      → length (store generation count o rest stored) + count ≤ header_slots
  length-store none passed kept = passed
  length-store (some (name, value)) passed kept = elim (Bool-cases (ltb count header_slots)) [
    | inl room ↦ rw room (omega (arith, kept (ground arith)))
    | inr full ↦ rw full passed
  ]

  store-generation :
      (o : Option (Bytes × Bytes))
      → All (λ (h : Header). h.generation ≡ generation) rest
      → All (λ (h : Header). h.generation ≡ generation) stored
      → All (λ (h : Header). h.generation ≡ generation) (store generation count o rest stored)
  store-generation none passed kept = passed
  store-generation (some (name, value)) passed kept = elim (Bool-cases (ltb count header_slots)) [
    | inl room ↦ rw room (refl, kept)
    | inr full ↦ rw full passed
  ]

-- No more headers than there are slots.
pub length-collect_headers :
    (generation count : ℕ) (ls : List Bytes)
    → count ≤ header_slots
    → length (collect_headers generation count ls) + count ≤ header_slots
unfolding collect_headers
length-collect_headers generation count [] h = omega arith
length-collect_headers generation count ([] ∷ ls) h = omega arith
length-collect_headers generation count ((c ∷ l) ∷ ls) h =
    length-store generation count _ _ (split_at b':' (c ∷ l))
      (length-collect_headers generation count ls h)
      (length-collect_headers generation (count + 1) ls)

-- Every stored header points into the buffer of that generation.
pub collect_headers-generation :
    (generation count : ℕ) (ls : List Bytes)
    → All (λ (h : Header). h.generation ≡ generation) (collect_headers generation count ls)
unfolding collect_headers
collect_headers-generation generation count [] = tt
collect_headers-generation generation count ([] ∷ ls) = tt
collect_headers-generation generation count ((c ∷ l) ∷ ls) =
    store-generation generation count _ _ (split_at b':' (c ∷ l))
      (collect_headers-generation generation count ls)
      (collect_headers-generation generation (count + 1) ls)
