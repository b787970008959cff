-- ===== src/Server/Listen/Laws.antt =====
-- What `create_listen_socket` leaves in the table of descriptors.
use ott_server.Base.{
  ==_iff, ==_refl, Bool, Bool-cases, ap, false, if◌then◌else◌, inl, inr, none, refl, some, sym,
  true, ℕ, ◌%◌, ◌&&◌, ◌==◌, ◌^◌, ◌∙◌, ◌≡◌,
}
use ott_server.Server.Listen.{
  Calls, Descriptors, Socket, create_listen_socket, created, make_nonblocking,
}
use ott_server.Server.Routes.Laws.{apart}

abbrev pub listening_socket : ℕ → ℕ → Socket
listening_socket port initial = record {
  port = some (port % 2 ^ 16);
  backlog = some 128;
  flags = record { nonblocking = true; others = initial };
}

-- If socket gives a descriptor that is free, then whatever the other calls return: the descriptor
-- is returned exactly if all of them succeed, and is then a non-blocking socket that listens on the
-- port modulo 2^16; every other descriptor is as before, and so is this one, closed, if it is not
-- returned.
pub create_listen_socket_lem :
    (calls : Calls) (port fd d : ℕ) (table : Descriptors)
    → calls.socket ≡ some fd
    → table fd ≡ none
    → let (after, result) = create_listen_socket calls port table in
      let succeeds = calls.binds && calls.listens && calls.gets_flags && calls.sets_flags in
      (result ≡ (if succeeds then some fd else none))
      × (after d
          ≡ (if succeeds && d == fd then some (listening_socket port calls.initial) else table d))
unfolding create_listen_socket make_nonblocking
create_listen_socket_lem calls port fd d table e free =
    rw e (go calls.binds calls.listens calls.gets_flags calls.sets_flags)
  where
    -- At this descriptor, which was free, and at another.
    by_descriptor :
        {claim : Type 0}
        → ((d == fd) ≡ true → none ≡ table d → claim)
        → ((d == fd) ≡ false → claim)
        → claim
    by_descriptor this other = elim (Bool-cases (d == fd)) [
      | inl same ↦ this same (sym (ap table ((==_iff d fd).0 same) ∙ free))
      | inr apart ↦ other apart
    ]

    go :
        (b l g s : Bool)
        → let (after, result) =
            created
              (record calls { binds = b; listens = l; gets_flags = g; sets_flags = s })
              port
              table
              (some fd) in
          (result ≡ (if b && l && g && s then some fd else none))
          × (after d ≡ (
              if (b && l && g && s) && d == fd
              then some (listening_socket port calls.initial)
              else table d))
    go false l g s = (refl, by_descriptor (λ h f. rw h f) (λ h. rw h refl))
    go true false g s = (refl, by_descriptor (λ h f. rw h f) (λ h. rw h refl))
    go true true false s = (refl, by_descriptor (λ h f. rw h f) (λ h. rw h refl))
    go true true true false = (refl, by_descriptor (λ h f. rw h f) (λ h. rw h refl))
    go true true true true = (refl, by_descriptor (λ h f. rw (h, ==_refl fd) refl) (λ h. rw h refl))
