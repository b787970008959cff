-- ===== src/Server/Loop.antt =====
-- server/src/main.c: the loops that accept connections and hand those with a request to the pool,
-- with epoll and with poll. Jobs are the descriptors of the clients.
pub mod Laws
pub mod Conserved
use ott_server.Base.{
  Bool, List, [], false, if◌then◌else◌, length, ltb, suc, true, zero, ℕ, ◌&&◌, ◌++◌, ◌+◌, ◌==◌, ◌∷◌,
  ◌≡◌,
}

-- MAX_EVENTS
abbrev pub max_events : ℕ
max_events = 128

-- What the loop has: the clients it waits for, those it closed, and those it handed to the pool.
pub record Loop : Type 0 where
  pub watched : List ℕ
  pub closed : List ℕ
  pub submitted : List ℕ

abbrev pub close_client : ℕ → Loop → Loop
close_client fd loop = record loop { closed = loop.closed ++ fd ∷ [] }

abbrev pub watch_client : ℕ → Loop → Loop
watch_client fd loop = record loop { watched = loop.watched ++ fd ∷ [] }

abbrev pub submit_client : ℕ → Loop → Loop
submit_client fd loop = record loop { submitted = loop.submitted ++ fd ∷ [] }

-- A connection that accept gives, and whether `make_nonblocking` succeeds.
pub record Connection : Type 0 where
  pub fd : ℕ
  pub nonblocking : Bool

-- One round of the accept loop with epoll; `in_epoll` says whether EPOLL_CTL_ADD succeeds.
unfoldable pub accept_epoll : Connection → Bool → Loop → Loop
accept_epoll c in_epoll loop =
    if c.nonblocking && in_epoll then watch_client c.fd loop else close_client c.fd loop

-- EPOLL_CTL_DEL
unfoldable pub unwatch : ℕ → List ℕ → List ℕ
unwatch fd [] = []
unwatch fd (w ∷ ws) = let rest = unwatch fd ws in if w == fd then ws else w ∷ rest

-- An event of a client; `allocated` says whether malloc gives a task.
unfoldable pub client_event : ℕ → Bool → Loop → Loop
unfolding unwatch
client_event fd allocated loop =
    let gone = record loop { watched = unwatch fd loop.watched } in
    if allocated then submit_client fd gone else close_client fd gone

-- One round of the accept loop with poll, whose array has room for MAX_EVENTS, the first of which
-- is the listening socket.
unfoldable pub accept_poll : Connection → Loop → Loop
accept_poll c loop =
    if c.nonblocking && ltb (1 + length loop.watched) max_events
    then watch_client c.fd loop
    else close_client c.fd loop

-- A slot of poll's array: POLLIN, and any of POLLERR, POLLHUP and POLLNVAL.
pub record PollSlot : Type 0 where
  pub fd : ℕ
  pub readable : Bool
  pub broken : Bool

abbrev pub moved : {A : Type 0} → A → List A → List A
moved x [] = x ∷ []
moved x (l ∷ ls) = l ∷ x ∷ ls

-- `fds[i] = fds[fd_count - 1]; fd_count--;` on the slots behind the i-th.
unfoldable pub last_first : {A : Type 0} → List A → List A
last_first [] = []
last_first (x ∷ []) = x ∷ []
last_first (x ∷ y ∷ xs) = moved x (last_first (y ∷ xs))

-- The loop over the slots from the i-th on; what it watches are the slots before it.
unfoldable pub poll_sweep : (ℕ → Bool) → ℕ → List PollSlot → Loop → Loop
unfolding last_first
poll_sweep allocates zero slots loop = loop
poll_sweep allocates (suc fuel) [] loop = loop
poll_sweep allocates (suc fuel) (s ∷ slots) loop =
    let handed = poll_sweep allocates fuel (last_first slots) (submit_client s.fd loop) in
    let dropped = poll_sweep allocates fuel (last_first slots) (close_client s.fd loop) in
    let kept = poll_sweep allocates fuel slots (watch_client s.fd loop) in
    if s.readable
    then (if allocates s.fd then handed else dropped)
    else if s.broken
    then dropped
    else kept

-- One round of the loop with poll, on the slots of the clients it waits for.
abbrev pub poll_round : (ℕ → Bool) → List PollSlot → Loop → Loop
poll_round allocates slots loop =
    poll_sweep allocates (length slots) slots (record loop { watched = [] })

abbrev pub slot_fds : List PollSlot → List ℕ
slot_fds [] = []
slot_fds (s ∷ slots) = s.fd ∷ slot_fds slots

abbrev pub no_clients : Loop
no_clients = record { watched = []; closed = []; submitted = [] }

-- What the main loop reaches, with poll or with epoll, after it accepted some descriptors. Events
-- come only for clients that are watched.
pub data Served : Bool → List ℕ → Loop → Type 0 where
  listening : {poll : Bool} → Served poll [] no_clients
  accepted_with_epoll :
      {fds : List ℕ} {loop : Loop} (c : Connection) (in_epoll : Bool)
      → Served false fds loop
      → Served false (fds ++ c.fd ∷ []) (accept_epoll c in_epoll loop)
  received_event :
      {fds : List ℕ} {loop : Loop} (before after : List ℕ) (fd : ℕ) (allocated : Bool)
      → loop.watched ≡ before ++ fd ∷ after
      → Served false fds loop
      → Served false fds (client_event fd allocated loop)
  accepted_with_poll :
      {fds : List ℕ} {loop : Loop} (c : Connection)
      → Served true fds loop
      → Served true (fds ++ c.fd ∷ []) (accept_poll c loop)
  polled :
      {fds : List ℕ} {loop : Loop} (allocates : ℕ → Bool) (slots : List PollSlot)
      → slot_fds slots ≡ loop.watched
      → Served true fds loop
      → Served true fds (poll_round allocates slots loop)
