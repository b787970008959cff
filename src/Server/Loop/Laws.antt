-- ===== src/Server/Loop/Laws.antt =====
-- No connection is lost or handled twice by the loops.
use ott_server.Base.{
  Bool, List, [], ap, arith, false, if◌then◌else◌, length, not, refl, suc, true, zero, ℕ, ◌&&◌,
  ◌++◌, ◌+◌, ◌==◌, ◌∙◌, ◌∷◌, ◌≡◌, ◌≤◌,
}
use ott_server.Server.Loop.{
  Loop, PollSlot, close_client, last_first, moved, poll_sweep, submit_client, watch_client,
}

abbrev pub count : ℕ → List ℕ → ℕ
count fd [] = 0
count fd (x ∷ xs) = (if x == fd then 1 else 0) + count fd xs

-- How many slots with a descriptor pass a test.
abbrev pub count_slots : (PollSlot → Bool) → ℕ → List PollSlot → ℕ
count_slots test fd [] = 0
count_slots test fd (s ∷ slots) =
    (if s.fd == fd && test s then 1 else 0) + count_slots test fd slots

pub count_append : (fd : ℕ) (xs ys : List ℕ) → count fd (xs ++ ys) ≡ count fd xs + count fd ys
count_append fd [] ys = omega arith
count_append fd (x ∷ xs) ys = omega (arith, count_append fd xs ys)

length-last_first : {A : Type 0} (xs : List A) → length (last_first xs) ≡ length xs
unfolding last_first
length-last_first {A = A} [] = refl
length-last_first {A = A} (x ∷ []) = refl
length-last_first {A = A} (x ∷ y ∷ xs) =
    moved_length (last_first (y ∷ xs)) ∙ ap suc (length-last_first (y ∷ xs))
  where
    moved_length : (l : List A) → length (moved x l) ≡ suc (length l)
    moved_length [] = refl
    moved_length (l ∷ ls) = refl

count_slots-last_first :
    (test : PollSlot → Bool) (fd : ℕ) (slots : List PollSlot)
    → count_slots test fd (last_first slots) ≡ count_slots test fd slots
unfolding last_first
count_slots-last_first test fd [] = refl
count_slots-last_first test fd (x ∷ []) = refl
count_slots-last_first test fd (x ∷ y ∷ xs) =
    go (last_first (y ∷ xs)) (count_slots-last_first test fd (y ∷ xs))
  where
    go :
        (l : List PollSlot)
        → count_slots test fd l ≡ count_slots test fd (y ∷ xs)
        → count_slots test fd (moved x l) ≡ count_slots test fd (x ∷ y ∷ xs)
    go [] e = omega (arith, e)
    go (z ∷ ls) e = omega (arith, e)

-- What becomes of a slot: it is submitted, closed, or kept.
abbrev pub is_submitted : (ℕ → Bool) → PollSlot → Bool
is_submitted allocates s = s.readable && allocates s.fd

abbrev pub is_kept : PollSlot → Bool
is_kept s = not s.readable && not s.broken

abbrev pub is_closed : (ℕ → Bool) → PollSlot → Bool
is_closed allocates s = if s.readable then not (allocates s.fd) else s.broken

-- What a sweep of some slots adds to the loop, for one descriptor.
abbrev pub IsSwept : (ℕ → Bool) → List PollSlot → Loop → Loop → ℕ → Type 0
IsSwept allocates slots loop after fd =
    (count fd after.submitted
      ≡ count fd loop.submitted + count_slots (is_submitted allocates) fd slots)
    × (count fd after.closed ≡ count fd loop.closed + count_slots (is_closed allocates) fd slots)
    × (count fd after.watched ≡ count fd loop.watched + count_slots is_kept fd slots)

abbrev after_slot : PollSlot → Loop → Bool → Bool → Bool → Loop
after_slot s loop true true b = submit_client s.fd loop
after_slot s loop true false b = close_client s.fd loop
after_slot s loop false a true = close_client s.fd loop
after_slot s loop false a false = watch_client s.fd loop

IsSwept-more :
    (allocates : ℕ → Bool) (s : PollSlot) (slots : List PollSlot) (loop after : Loop) (fd : ℕ)
    (r a b : Bool)
    → s.readable ≡ r
    → allocates s.fd ≡ a
    → s.broken ≡ b
    → IsSwept allocates slots (after_slot s loop r a b) after fd
    → IsSwept allocates (s ∷ slots) loop after fd
IsSwept-more allocates s slots loop after fd true true b e f g h =
    let c = count_append fd loop.submitted (s.fd ∷ []) in ground (arith, c, h)
IsSwept-more allocates s slots loop after fd true false b e f g h =
    let c = count_append fd loop.closed (s.fd ∷ []) in ground (arith, c, h)
IsSwept-more allocates s slots loop after fd false a true e f g h =
    let c = count_append fd loop.closed (s.fd ∷ []) in ground (arith, c, h)
IsSwept-more allocates s slots loop after fd false a false e f g h =
    let c = count_append fd loop.watched (s.fd ∷ []) in ground (arith, c, h)

-- A sweep over all slots submits, closes and keeps each of them once, whatever it moves on the way:
-- a readable slot is submitted, or closed if no task can be allocated, another one that is broken
-- is closed, and the rest is kept.
pub poll_sweep_lem :
    (allocates : ℕ → Bool) (fuel : ℕ) (slots : List PollSlot) (loop : Loop) (fd : ℕ)
    → length slots ≤ fuel
    → IsSwept allocates slots loop (poll_sweep allocates fuel slots loop) fd
unfolding poll_sweep
poll_sweep_lem allocates zero [] loop fd h = (omega arith, omega arith, omega arith)
poll_sweep_lem allocates zero (s ∷ slots) loop fd h = absurd (omega arith)
poll_sweep_lem allocates (suc fuel) [] loop fd h = (omega arith, omega arith, omega arith)
poll_sweep_lem allocates (suc fuel) (s ∷ slots) loop fd h =
    let enough : length (last_first slots) ≤ fuel = omega (arith, length-last_first slots) in
    go s.readable refl (allocates s.fd) refl s.broken refl
      (moved_slots (submit_client s.fd loop) _
        (poll_sweep_lem allocates fuel (last_first slots) (submit_client s.fd loop) fd enough))
      (moved_slots (close_client s.fd loop) _
        (poll_sweep_lem allocates fuel (last_first slots) (close_client s.fd loop) fd enough))
      (poll_sweep_lem allocates fuel slots (watch_client s.fd loop) fd (omega arith))
  where
    moved_slots :
        (start after : Loop)
        → IsSwept allocates (last_first slots) start after fd
        → IsSwept allocates slots start after fd
    moved_slots start after (h1, h2, h3) = (
      h1
          ∙ ap (λ n. count fd start.submitted + n)
              (count_slots-last_first (is_submitted allocates) fd slots),
      h2
          ∙ ap (λ n. count fd start.closed + n)
              (count_slots-last_first (is_closed allocates) fd slots),
      h3 ∙ ap (λ n. count fd start.watched + n) (count_slots-last_first is_kept fd slots),
    )

    go :
        (r : Bool)
        → s.readable ≡ r
        → (a : Bool) → allocates s.fd ≡ a
        → (b : Bool) → s.broken ≡ b
        → IsSwept allocates slots
            (submit_client s.fd loop)
            (poll_sweep allocates fuel (last_first slots) (submit_client s.fd loop))
            fd
        → IsSwept allocates slots
            (close_client s.fd loop)
            (poll_sweep allocates fuel (last_first slots) (close_client s.fd loop))
            fd
        → IsSwept allocates slots
            (watch_client s.fd loop)
            (poll_sweep allocates fuel slots (watch_client s.fd loop))
            fd
        → IsSwept allocates
            (s ∷ slots)
            loop
            (if r
              then (if a
                  then poll_sweep allocates fuel (last_first slots) (submit_client s.fd loop)
                  else poll_sweep allocates fuel (last_first slots) (close_client s.fd loop))
              else if b
              then poll_sweep allocates fuel (last_first slots) (close_client s.fd loop)
              else poll_sweep allocates fuel slots (watch_client s.fd loop))
            fd
    go true e true f b g hs hc hw = IsSwept-more allocates s slots loop _ fd true true b e f g hs
    go true e false f b g hs hc hw = IsSwept-more allocates s slots loop _ fd true false b e f g hc
    go false e a f true g hs hc hw = IsSwept-more allocates s slots loop _ fd false a true e f g hc
    go false e a f false g hs hc hw =
        IsSwept-more allocates s slots loop _ fd false a false e f g hw
