-- ===== src/Http/Receive/Laws.antt =====
-- What `http_parse_request` guarantees of the buffer when it reads a body.
use ott_server.Base.{
  Bool, Bool-cases, ap, ap₂, arith, if◌then◌else◌, inl, inr, leb, length, ltb, refl, suc, zero, ℕ,
  ◌++◌, ◌+◌, ◌-◌, ◌<◌, ◌∙◌, ◌≡◌, ◌≤◌,
}
use ott_server.Http.Buffer.{
  Ensures, Growth, ensure_capacity, ensure_capacity_lem, grown, refused, unfinished,
}
use ott_server.Http.Read.{
  Buffered, Outcome, failed, make_room, ok, read_body, receive, resized, stuck, ◌>>=◌,
}
use ott_server.Http.Read.Laws.{IsRoomy, Receives, arriving, receive_lem, total}
use ott_server.Http.Receive.{read_rest}

-- What the body loop gives for `m` missing bytes.
abbrev ReadsBody : Buffered → ℕ → Outcome Buffered → Type 0
ReadsBody b m failed = Unit
ReadsBody b m stuck = ⊥
ReadsBody b m (ok r) =
    (length b.bytes + m ≤ length r.bytes)
    × (length r.bytes < r.capacity)
    × (r.generation ≡ b.generation)
    × (r.bytes ++ arriving r.incoming ≡ b.bytes ++ arriving b.incoming)

-- A buffer made large enough for `required` bytes.
abbrev Makes : Buffered → ℕ → Outcome Buffered → Type 0
Makes b required failed = Unit
Makes b required stuck = ⊥
Makes b required (ok r) =
    (r.bytes ≡ b.bytes)
    × (r.incoming ≡ b.incoming)
    × (b.capacity ≤ r.capacity)
    × (required ≤ r.capacity)
    × (r.generation ≡ (if leb required b.capacity then b.generation else b.generation + 1))

resized-Makes :
    (b : Buffered) (required : ℕ) (g : Growth)
    → Ensures b.capacity required g
    → Makes b required (resized b g)
unfolding resized
resized-Makes b required (grown c) h = (refl, refl, ground arith, h.0, ground arith)
resized-Makes b required refused h = tt
resized-Makes b required unfinished h = h

module _ (grants : ℕ → Bool) (owns : Bool) where
  make_room_lem :
      (b : Buffered) (required : ℕ)
      → 0 < b.capacity
      → Makes b required (make_room grants owns b required)
  unfolding make_room
  make_room_lem b required h =
      resized-Makes b required (ensure_capacity grants owns b.capacity required)
        (ensure_capacity_lem grants owns b.capacity required h)

  body-step :
      (f m : ℕ) (b : Buffered) (o : Outcome (ℕ × Buffered))
      → Receives b o
      → ((n : ℕ) (r : Buffered)
          → o ≡ ok (n, r)
          → ReadsBody r (suc m - n) (read_body grants owns f (suc m - n) r))
      → ReadsBody b (suc m) (o >>= λ nr. read_body grants owns f (suc m - nr.0) nr.1)
  body-step f m b failed h later = tt
  body-step f m b stuck h later = h
  body-step f m b (ok (n, r)) h later =
      carry (read_body grants owns f (suc m - n) r) (later n r refl)
    where
      carry : (o : Outcome Buffered) → ReadsBody r (suc m - n) o → ReadsBody b (suc m) o
      carry failed k = tt
      carry stuck k = k
      carry (ok q) (a, c, d, flow) = (omega (arith, h), c, d ∙ h.5, flow ∙ h.6)

  read_body_lem :
      (f m : ℕ) (b : Buffered)
      → IsRoomy b
      → total b.incoming < f
      → ReadsBody b m (read_body grants owns f m b)
  unfolding read_body
  read_body_lem zero m b v h = absurd (omega arith)
  read_body_lem (suc f) zero b v h = (omega arith, v, refl, refl)
  read_body_lem (suc f) (suc m) b v h =
      body-step f m b (receive grants owns b) (receive_lem grants owns b v) λ n r e.
        let got = rw e at (receive_lem grants owns b v) in
        read_body_lem f (suc m - n) r (omega (arith, got)) (omega (arith, got))

-- What reading the rest of a request gives.
abbrev pub ReadsRest : Buffered → ℕ → ℕ → Outcome Buffered → Type 0
ReadsRest b header_len wanted failed = Unit
ReadsRest b header_len wanted stuck = ⊥
ReadsRest b header_len wanted (ok r) =
    (header_len + wanted ≤ length r.bytes)
    × (r.generation
        ≡ (if ltb (header_len + wanted) b.capacity then b.generation else b.generation + 1))
    × (r.bytes ++ arriving r.incoming ≡ b.bytes ++ arriving b.incoming)

module _ (grants : ℕ → Bool) where
  pub read_rest_lem :
      (fuel : ℕ) (owns : Bool) (b : Buffered) (header_len wanted : ℕ)
      → IsRoomy b
      → header_len ≤ length b.bytes
      → total b.incoming < fuel
      → ReadsRest b header_len wanted (read_rest grants fuel owns b header_len wanted)
  unfolding read_rest
  read_rest_lem fuel owns b header_len wanted v h k =
      elim (Bool-cases (ltb (length b.bytes - header_len) wanted)) [
        | inl missing ↦ rw missing (
            carry (make_room grants owns b (header_len + wanted + 1))
              (make_room_lem grants owns b (header_len + wanted + 1) (omega arith)))
        | inr whole ↦ rw whole (ground arith, ground arith, refl)
      ]
    where
      finish :
          (r : Buffered) (o : Outcome Buffered)
          → Makes b (header_len + wanted + 1) (ok r)
          → ReadsBody r (wanted - (length b.bytes - header_len)) o
          → ReadsRest b header_len wanted o
      finish r failed m d = tt
      finish r stuck m d = d
      finish r (ok q) m d = (
        omega (arith, ap length m.0, h),
        d.2 ∙ ground (arith, m),
        d.3 ∙ ap₂ (λ s i. s ++ arriving i) m.0 m.1,
      )

      carry :
          (o : Outcome Buffered)
          → Makes b (header_len + wanted + 1) o
          → ReadsRest b header_len wanted
              (o >>= λ r. read_body grants owns fuel (wanted - (length b.bytes - header_len)) r)
      carry failed m = tt
      carry stuck m = m
      carry (ok r) m = finish r _ m (
          read_body_lem grants owns fuel (wanted - (length b.bytes - header_len)) r
            (omega (arith, ap length m.0, m.2)) (omega (arith, ap total m.1)))
