-- ===== src/ThreadPool/Lifecycle.antt =====
-- server/src/threadpool.c: what `thread_pool_init` and `thread_pool_destroy` make and release.
pub mod Laws
use ott_server.Base.{Bool, false, if◌then◌else◌, not, suc, true, zero, ℕ, ◌==◌}

-- What a pool holds: the mutex, the condition variable, the array of workers, and which workers
-- run.
pub record Held : Type 0 where
  pub mutex : Bool
  pub cond : Bool
  pub array : Bool
  pub runs : ℕ → Bool

abbrev pub nothing_held : Held
nothing_held = record { mutex = false; cond = false; array = false; runs = λ j. false }

-- What pthread_mutex_init, pthread_cond_init, calloc and pthread_create of each worker return.
pub record Creation : Type 0 where
  pub makes_mutex : Bool
  pub makes_cond : Bool
  pub allocates : Bool
  pub creates : ℕ → Bool

abbrev pub set_runs : ℕ → Bool → Held → Held
set_runs j b h = record h { runs = λ k. if k == j then b else h.runs k }

-- pthread_join of the workers below a number, in order.
unfoldable pub join_workers : ℕ → Held → Held
join_workers zero h = h
join_workers (suc i) h = set_runs i false (join_workers i h)

-- free, pthread_cond_destroy and pthread_mutex_destroy.
abbrev pub release : Held → Held
release h = record h { array = false; cond = false; mutex = false }

-- The loop that creates the workers from number i on; if one is not created, those before it are
-- joined.
unfoldable pub create_workers : (ℕ → Bool) → ℕ → ℕ → Held → Held × Bool
unfolding join_workers
create_workers creates i zero h = (h, true)
create_workers creates i (suc n) h =
    let rest = create_workers creates (suc i) n (set_runs i true h) in
    if creates i then rest else (release (join_workers i h), false)

-- The pool before its first worker is created.
abbrev pub no_workers : Held
no_workers = record { mutex = true; cond = true; array = true; runs = λ j. false }

-- `thread_pool_init`, with whether it returns 0.
unfoldable pub init_held : Creation → ℕ → Held × Bool
unfolding create_workers
init_held calls worker_count =
    if not calls.makes_mutex
    then (nothing_held, false)
    else if not calls.makes_cond
    then (record nothing_held { mutex = false }, false)
    else if not calls.allocates
    then (record nothing_held { cond = false; mutex = false }, false)
    else create_workers calls.creates 0 worker_count no_workers

-- `thread_pool_destroy`, of a pool with so many workers.
unfoldable pub destroy_held : ℕ → Held → Held
unfolding join_workers
destroy_held worker_count h = release (join_workers worker_count h)
