-- ===== src/Tests/ThreadPool.antt =====
-- server/src/threadpool.c: two jobs are queued, and one of two workers starts the first.
use ott_server.Base.{List, [], false, ltb, none, refl, some, true, ℕ, ◌++◌, ◌∷◌, ◌≡◌}
use ott_server.ThreadPool.{
  Pool, Reached, at_start, running, stepped, submitted, thread_pool_init, thread_pool_submit,
  waiting, worker_step,
}
use ott_server.ThreadPool.Lifecycle.{Creation, create_workers, destroy_held, init_held}
use ott_server.ThreadPool.Lifecycle.Laws.{IsReleased, RunsBelow, thread_pool_lifecycle}
use ott_server.ThreadPool.Order.{queued_order}
use ott_server.ThreadPool.Queue.{IsQueue}

abbrev two_queued : Pool ℕ
two_queued = thread_pool_submit true 8 (thread_pool_submit true 7 (thread_pool_init 2))

abbrev half_run : Pool ℕ
half_run = record (worker_step two_queued waiting).1 { workers = running 7 ∷ waiting ∷ [] }

half_run-Reached : Reached 2 (7 ∷ 8 ∷ []) (7 ∷ []) half_run
unfolding thread_pool_init thread_pool_submit worker_step
half_run-Reached = stepped [] (waiting ∷ []) waiting refl (submitted 8 (submitted 7 at_start))

-- The last job that leaves the queue takes the tail with it, and the next one becomes the head.
emptied :
    let empty = (worker_step (worker_step two_queued waiting).1 waiting).1 in
    (empty.head ≡ none) × (empty.tail ≡ none) × ((thread_pool_submit true 9 empty).head ≡ some 2)
unfolding thread_pool_init thread_pool_submit worker_step
emptied = (refl, refl, refl)

queued_order_example :
    (jobs : List ℕ) × IsQueue half_run jobs × (◌≡◌ {A = List ℕ} (7 ∷ 8 ∷ []) ((7 ∷ []) ++ jobs))
queued_order_example = queued_order 2 (7 ∷ 8 ∷ []) (7 ∷ []) half_run half_run-Reached

-- The third worker is not created.
abbrev two_of_four : Creation
two_of_four = record {
  makes_mutex = true;
  makes_cond = true;
  allocates = true;
  creates = λ j. ltb j 2;
}

abbrev all_four : Creation
all_four = record { makes_mutex = true; makes_cond = true; allocates = true; creates = λ j. true }

not_created : (init_held two_of_four 4).1 ≡ false
unfolding init_held create_workers
not_created = refl

thread_pool_lifecycle_example :
    RunsBelow 4 (init_held all_four 4).0 × IsReleased (destroy_held 4 (init_held all_four 4).0)
unfolding init_held create_workers
thread_pool_lifecycle_example = thread_pool_lifecycle all_four 4
