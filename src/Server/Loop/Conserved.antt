-- ===== src/Server/Loop/Conserved.antt =====
-- Every connection that the main loop accepts is watched, closed or handed to the pool.
use ott_server.Base.{
  ==_refl, Bool, List, [], ap, arith, false, if◌then◌else◌, length, ltb, refl, sym, true, ℕ, ◌&&◌,
  ◌++◌, ◌+◌, ◌∙◌, ◌∷◌, ◌≡◌,
}
use ott_server.Server.Loop.{
  Loop, PollSlot, Served, accept_epoll, accept_poll, accepted_with_epoll, accepted_with_poll,
  client_event, close_client, listening, max_events, polled, received_event, slot_fds,
  submit_client, unwatch, watch_client,
}
use ott_server.Server.Loop.Laws.{
  count, count_append, count_slots, is_closed, is_kept, is_submitted, poll_sweep_lem,
}

count-unwatch :
    (fd : ℕ) (before after : List ℕ) (x : ℕ)
    → count x (before ++ fd ∷ after)
      ≡ count x (unwatch fd (before ++ fd ∷ after)) + count x (fd ∷ [])
unfolding unwatch
count-unwatch fd [] after x = rw (==_refl fd) (omega arith)
count-unwatch fd (w ∷ before) after x = ground (arith, count-unwatch fd before after x)

-- Every slot is submitted, closed or kept.
count_slots_fds :
    (allocates : ℕ → Bool) (slots : List PollSlot) (x : ℕ)
    → count x (slot_fds slots)
      ≡ count_slots (is_submitted allocates) x slots
        + count_slots (is_closed allocates) x slots
        + count_slots is_kept x slots
count_slots_fds allocates [] x = omega arith
count_slots_fds allocates (s ∷ slots) x =
    go s.readable refl (allocates s.fd) refl s.broken refl (count_slots_fds allocates slots x)
  where
    go :
        (r : Bool)
        → s.readable ≡ r
        → (a : Bool) → allocates s.fd ≡ a
        → (b : Bool) → s.broken ≡ b
        → count x (slot_fds slots)
          ≡ count_slots (is_submitted allocates) x slots
            + count_slots (is_closed allocates) x slots
            + count_slots is_kept x slots
        → count x (slot_fds (s ∷ slots))
          ≡ count_slots (is_submitted allocates) x (s ∷ slots)
            + count_slots (is_closed allocates) x (s ∷ slots)
            + count_slots is_kept x (s ∷ slots)
    go true e true f b g h = ground (arith, h)
    go true e false f b g h = ground (arith, h)
    go false e a f true g h = ground (arith, h)
    go false e a f false g h = ground (arith, h)

-- The number of times that a descriptor was accepted is the number of times that it is watched, was
-- closed, or was handed to the pool.
pub Served-count :
    (poll : Bool) (fds : List ℕ) (loop : Loop) (x : ℕ)
    → Served poll fds loop
    → count x fds ≡ count x loop.watched + count x loop.closed + count x loop.submitted
unfolding accept_epoll client_event accept_poll
Served-count poll fds loop x listening = omega arith
Served-count poll _ _ x (accepted_with_epoll {fds = fds} {loop = loop} c in_epoll before) =
    go (c.nonblocking && in_epoll) (Served-count false fds loop x before)
      (count_append x fds (c.fd ∷ [])) (count_append x loop.watched (c.fd ∷ []))
      (count_append x loop.closed (c.fd ∷ []))
  where
    go :
        (b : Bool)
        → count x fds ≡ count x loop.watched + count x loop.closed + count x loop.submitted
        → count x (fds ++ c.fd ∷ []) ≡ count x fds + count x (c.fd ∷ [])
        → count x (loop.watched ++ c.fd ∷ []) ≡ count x loop.watched + count x (c.fd ∷ [])
        → count x (loop.closed ++ c.fd ∷ []) ≡ count x loop.closed + count x (c.fd ∷ [])
        → let after = if b then watch_client c.fd loop else close_client c.fd loop in
          count x (fds ++ c.fd ∷ [])
          ≡ count x after.watched + count x after.closed + count x after.submitted
    go true h e w k = omega (arith, h, e, w)
    go false h e w k = omega (arith, h, e, k)
Served-count poll fds _ x (received_event {loop = loop} before after fd allocated here reached) =
    go allocated (Served-count false fds loop x reached) (gone here)
      (count_append x loop.closed (fd ∷ [])) (count_append x loop.submitted (fd ∷ []))
  where
    gone :
        loop.watched ≡ before ++ fd ∷ after
        → count x loop.watched ≡ count x (unwatch fd loop.watched) + count x (fd ∷ [])
    gone e = rw e (count-unwatch fd before after x)

    go :
        (b : Bool)
        → count x fds ≡ count x loop.watched + count x loop.closed + count x loop.submitted
        → count x loop.watched ≡ count x (unwatch fd loop.watched) + count x (fd ∷ [])
        → count x (loop.closed ++ fd ∷ []) ≡ count x loop.closed + count x (fd ∷ [])
        → count x (loop.submitted ++ fd ∷ []) ≡ count x loop.submitted + count x (fd ∷ [])
        → let rest = record loop { watched = unwatch fd loop.watched } in
          let next = if b then submit_client fd rest else close_client fd rest in
          count x fds ≡ count x next.watched + count x next.closed + count x next.submitted
    go true h e w k = omega (arith, h, e, k)
    go false h e w k = omega (arith, h, e, w)
Served-count poll _ _ x (accepted_with_poll {fds = fds} {loop = loop} c before) =
    go (c.nonblocking && ltb (1 + length loop.watched) max_events)
      (Served-count true fds loop x before) (count_append x fds (c.fd ∷ []))
      (count_append x loop.watched (c.fd ∷ [])) (count_append x loop.closed (c.fd ∷ []))
  where
    go :
        (b : Bool)
        → count x fds ≡ count x loop.watched + count x loop.closed + count x loop.submitted
        → count x (fds ++ c.fd ∷ []) ≡ count x fds + count x (c.fd ∷ [])
        → count x (loop.watched ++ c.fd ∷ []) ≡ count x loop.watched + count x (c.fd ∷ [])
        → count x (loop.closed ++ c.fd ∷ []) ≡ count x loop.closed + count x (c.fd ∷ [])
        → let after = if b then watch_client c.fd loop else close_client c.fd loop in
          count x (fds ++ c.fd ∷ [])
          ≡ count x after.watched + count x after.closed + count x after.submitted
    go true h e w k = omega (arith, h, e, w)
    go false h e w k = omega (arith, h, e, k)
Served-count poll fds _ x (polled {loop = loop} allocates slots same before) =
    let (handed, dropped, kept) =
      poll_sweep_lem allocates (length slots) slots (record loop { watched = [] }) x
        (omega arith) in
    let all : count x loop.watched
        ≡ count_slots (is_submitted allocates) x slots
          + count_slots (is_closed allocates) x slots
          + count_slots is_kept x slots =
      ap (count x) (sym same) ∙ count_slots_fds allocates slots x in
    omega (arith, Served-count true fds loop x before, handed, dropped, kept, all)
