-- ===== src/ThreadPool/Order.antt =====
-- The jobs of the pool are started in the order in which they are queued, each once.
use ott_server.Base.{List, [], ap, append_assoc, inl, refl, sym, ℕ, ◌++◌, ◌∙◌, ◌∷◌, ◌≡◌}
use ott_server.ThreadPool.{
  Pool, Reached, Worker, at_start, exited, refused_job, request_stop, running, started, stepped,
  stopped, submitted, thread_pool_init, thread_pool_submit, waiting, worker_step,
}
use ott_server.ThreadPool.Queue.{IsQueue, thread_pool_submit-IsQueue, worker_step-IsQueue}

module _ {Job : Type 0} where
  -- In every interleaving of calls and workers, the linked list from head to tail holds jobs such
  -- that those queued so far are the ones started so far, followed by these: none is lost, repeated
  -- or overtaken.
  pub queued_order :
      (worker_count : ℕ) (queued runs : List Job) (p : Pool Job)
      → Reached worker_count queued runs p
      → (jobs : List Job) × IsQueue p jobs × (queued ≡ runs ++ jobs)
  unfolding thread_pool_init thread_pool_submit request_stop
  queued_order worker_count _ _ _ at_start = ([], inl (refl, refl, refl), refl)
  queued_order worker_count _ _ _ (submitted {queued} {runs} {p} job r) =
      let (jobs, q, e) = queued_order worker_count queued runs p r in
      (
        jobs ++ job ∷ [],
        thread_pool_submit-IsQueue job p jobs q,
        ap (λ js. js ++ job ∷ []) e ∙ append_assoc runs jobs (job ∷ []),
      )
  queued_order worker_count _ _ _ (refused_job {queued} {runs} {p} job r) =
      queued_order worker_count queued runs p r
  queued_order worker_count _ _ _ (stopped {queued} {runs} {p} r) =
      queued_order worker_count queued runs p r
  queued_order worker_count _ _ _ (stepped {queued} {runs} {p} before after w workers r) =
      let (jobs, q, e) = queued_order worker_count queued runs p r in
      let (rest, split, left) = worker_step-IsQueue p w jobs q in
      (
        rest,
        left,
        e ∙ ap (◌++◌ runs) split ∙ sym (append_assoc runs (started w (worker_step p w).0) rest),
      )

  -- Once the pool is asked to stop, a worker starts no job: one that waits exits, one that runs a
  -- job returns to waiting and then exits, and the pool stays as it is.
  pub worker_step_stopped :
      (p : Pool Job) (w : Worker Job)
      → (started w (worker_step (request_stop p) w).0 ≡ [])
        × ((worker_step (request_stop p) w).1 ≡ request_stop p)
        × ((worker_step (request_stop p) (worker_step (request_stop p) w).0).0 ≡ exited)
  unfolding worker_step request_stop
  worker_step_stopped p waiting = (refl, refl, refl)
  worker_step_stopped p (running job) = (refl, refl, refl)
  worker_step_stopped p exited = (refl, refl, refl)
