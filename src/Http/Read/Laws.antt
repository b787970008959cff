-- ===== src/Http/Read/Laws.antt =====
-- The reading loops end, and the header loop never grows its buffer.
use mathlib.Core.Option.{some_inj}
use ott_server.Base.{
  ==_refl, Bool, Bool-cases, Option, [], ap, append_assoc, arith, drop, false, if◌then◌else◌, inl,
  inr, leb, leb→le, length, length-append, length-drop, length-take, le→leb, none, refl, some, suc,
  sym, take, take-append-drop, take_all, true, zero, ℕ, ◌++◌, ◌+◌, ◌-◌, ◌<◌, ◌==◌, ◌∙◌, ◌∷◌, ◌≡◌,
  ◌≤◌,
}
use ott_server.Cstr.{Bytes, split_on, split_on_sound}
use ott_server.Http.Buffer.{max_buffer}
use ott_server.Http.Read.{
  Buffered, Outcome, crlf_crlf, cstr, failed, found_end, make_room, ok, or_fail, read_headers,
  receive, stuck, ◌>>=◌,
}
use ott_server.Http.Socket.{Incoming, recv}

abbrev pub total : Incoming → ℕ
total [] = 0
total (piece ∷ more) = length piece + total more

-- All bytes to come, in order.
abbrev pub arriving : Incoming → Bytes
arriving [] = []
arriving (piece ∷ more) = piece ++ arriving more

-- The bytes and a NUL fit the buffer.
abbrev pub IsRoomy : Buffered → Type 0
IsRoomy b = length b.bytes < b.capacity

-- recv takes at least one byte, at most the room, and no byte gets lost.
recv_lem :
    (room : ℕ) (incoming : Incoming) (got : Bytes) (more : Incoming)
    → recv room incoming ≡ some (got, more)
    → (0 < length got) × (length got ≤ room) × (length got + total more ≡ total incoming)
unfolding recv
recv_lem room [] got more e = absurd cc
recv_lem room (piece ∷ rest) got more e =
    ground (arith, length-take room piece, length-drop room piece)

-- What recv takes and what it leaves are what was to come.
recv-arriving :
    (room : ℕ) (incoming : Incoming) (got : Bytes) (more : Incoming)
    → recv room incoming ≡ some (got, more)
    → got ++ arriving more ≡ arriving incoming
unfolding recv
recv-arriving room [] got more e = absurd cc
recv-arriving room (piece ∷ rest) got more e =
    go (length (take room piece) == 0) (leb (length piece) room) refl e
  where
    pair : {p q : Bytes × Incoming} → some p ≡ some q → p.0 ++ arriving p.1 ≡ q.0 ++ arriving q.1
    pair h = ap (λ p. p.0 ++ arriving p.1) (some_inj.0 h)

    go :
        (nothing fits : Bool)
        → leb (length piece) room ≡ fits
        → ◌≡◌ {A = Option (Bytes × Incoming)}
            (if nothing
              then none
              else some (take room piece, if fits then rest else drop room piece ∷ rest))
            (some (got, more))
        → got ++ arriving more ≡ piece ++ arriving rest
    go true fits k h = absurd cc
    go false true k h =
        sym (pair h) ∙ ap (λ p. p ++ arriving rest) (take_all room piece (leb→le _ _ k))
    go false false k h =
        sym (pair h)
        ∙ (sym (append_assoc (take room piece) (drop room piece) (arriving rest))
            ∙ ap (λ p. p ++ arriving rest) (take-append-drop room piece))

-- What a round of recv does to the buffer.
abbrev pub Receives : Buffered → Outcome (ℕ × Buffered) → Type 0
Receives b failed = Unit
Receives b stuck = ⊥
Receives b (ok (n, r)) =
    (0 < n)
    × (n + total r.incoming ≡ total b.incoming)
    × (length r.bytes ≡ length b.bytes + n)
    × (length r.bytes < b.capacity)
    × (r.capacity ≡ b.capacity)
    × (r.generation ≡ b.generation)
    × (r.bytes ++ arriving r.incoming ≡ b.bytes ++ arriving b.incoming)

-- What the header loop gives.
abbrev pub ReadsHeaders : Buffered → Outcome (Buffered × Bytes) → Type 0
ReadsHeaders b failed = Unit
ReadsHeaders b stuck = ⊥
ReadsHeaders b (ok (r, head)) =
    (length r.bytes < b.capacity)
    × (r.capacity ≡ b.capacity)
    × (r.generation ≡ b.generation)
    × (total r.incoming ≤ total b.incoming)
    × (rest : Bytes) × (cstr r.bytes ≡ head ++ (crlf_crlf ++ rest))
    × (r.bytes ++ arriving r.incoming ≡ b.bytes ++ arriving b.incoming)

ReadsHeaders-trans :
    (b r : Buffered) (o : Outcome (Buffered × Bytes)) (n : ℕ)
    → Receives b (ok (n, r))
    → ReadsHeaders r o
    → ReadsHeaders b o
ReadsHeaders-trans b r failed n h k = tt
ReadsHeaders-trans b r stuck n h k = k
ReadsHeaders-trans b r (ok (q, head)) n h (room, size, same, left, rest, split, flow) =
    (omega arith, size ∙ h.4, same ∙ h.5, omega (arith, h), rest, split, flow ∙ h.6)

module _ (grants : ℕ → Bool) (owns : Bool) where
  pub receive_lem : (b : Buffered) → IsRoomy b → Receives b (receive grants owns b)
  unfolding receive
  receive_lem b v = go (recv (b.capacity - length b.bytes - 1) b.incoming) refl
    where
      go :
          (o : Option (Bytes × Incoming))
          → recv (b.capacity - length b.bytes - 1) b.incoming ≡ o
          → Receives b (
              or_fail o >>= λ g.
              ok (length g.0, record b { bytes = b.bytes ++ g.0; incoming = g.1 }))
      go none e = tt
      go (some (got, more)) e =
          let (a, c, d) = recv_lem _ b.incoming got more e in
          (
            a,
            d,
            length-append b.bytes got,
            omega (arith, length-append b.bytes got),
            refl,
            refl,
            append_assoc b.bytes got (arriving more)
                ∙ ap (◌++◌ b.bytes) (recv-arriving _ b.incoming got more e),
          )

  make_room-enough :
      (b : Buffered) (required : ℕ)
      → required ≤ b.capacity
      → make_room grants owns b required ≡ ok b
  unfolding make_room
  make_room-enough b required h = rw (le→leb required b.capacity h, ==_refl b.capacity)

  -- The test before each recv never leads to a larger buffer.
  header_room :
      (b : Buffered)
      → IsRoomy b
      → (if leb b.capacity (length b.bytes + 1)
          then make_room grants owns b (length b.bytes + 1)
          else ok b)
        ≡ ok b
  unfolding make_room
  header_room b v = elim (Bool-cases (leb b.capacity (length b.bytes + 1))) [
    | inl full ↦ rw full (make_room-enough b (length b.bytes + 1) (omega arith))
    | inr room ↦ rw room
  ]

  -- What the header loop does behind a recv.
  abbrev searched : ℕ → ℕ × Buffered → Outcome (Buffered × Bytes)
  searched f (n, r) = found_end r (split_on crlf_crlf (cstr r.bytes)) (read_headers grants owns f r)

  read_headers-step :
      (f : ℕ) (b : Buffered)
      → IsRoomy b
      → read_headers grants owns (suc f) b ≡ (receive grants owns b >>= searched f)
  unfolding read_headers
  read_headers-step f b v = rw (header_room b v)

  after_headers :
      (f : ℕ) (b : Buffered) (o : Outcome (ℕ × Buffered))
      → Receives b o
      → ((n : ℕ) (r : Buffered) → o ≡ ok (n, r) → ReadsHeaders r (read_headers grants owns f r))
      → ReadsHeaders b (o >>= searched f)
  after_headers f b failed h later = tt
  after_headers f b stuck h later = h
  after_headers f b (ok (n, r)) h later = settle (split_on crlf_crlf (cstr r.bytes)) refl
    where
      settle :
          (o : Option (Bytes × Bytes))
          → split_on crlf_crlf (cstr r.bytes) ≡ o
          → ReadsHeaders b (found_end r o (read_headers grants owns f r))
      settle none e = elim (Bool-cases (leb max_buffer (length r.bytes))) [
        | inl over ↦ rw over tt
        | inr short ↦ rw short (ReadsHeaders-trans b r _ n h (later n r refl))
      ]
      settle (some (head, t)) e = (
        omega (arith, h),
        h.4,
        h.5,
        omega (arith, h),
        t,
        split_on_sound crlf_crlf (cstr r.bytes) head t e,
        h.6,
      )

  -- With more fuel than bytes to come the header loop ends. Where it succeeds the header text and
  -- its CRLFCRLF stand at the start of the buffer, which has not been reallocated.
  pub read_headers_lem :
      (f : ℕ) (b : Buffered)
      → IsRoomy b
      → total b.incoming < f
      → ReadsHeaders b (read_headers grants owns f b)
  read_headers_lem zero b v h = absurd (omega arith)
  read_headers_lem (suc f) b v h = rw (read_headers-step f b v) (
      after_headers f b (receive grants owns b) (receive_lem b v) λ n r e.
        let m = rw e at (receive_lem b v) in
        read_headers_lem f r (omega (arith, m)) (omega (arith, m)))
