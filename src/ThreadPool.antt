-- ===== src/ThreadPool.antt =====
-- server/src/threadpool.c and server/include/threadpool.h: the queue of jobs as the linked list that
-- it is, the workers and the steps that they take. Each critical section under the mutex is one step.
pub mod Queue
pub mod Order
pub mod Lifecycle
use mathlib.Core.Option as Option
use ott_server.Base.{
  Bool, List, Option, [], false, if◌then◌else◌, map, none, some, suc, true, zero, ℕ, ◌++◌, ◌+◌,
  ◌==◌, ◌∷◌, ◌≡◌,
}

-- What a worker does: it waits for a job, runs one, or has left its loop.
pub data Worker (Job : Type 0) : Type 0 where
  waiting : Worker Job
  running : Job → Worker Job
  exited : Worker Job

-- thread_job_t: `fn` and `arg`, and the address of the next one.
pub record Node (Job : Type 0) : Type 0 where
  pub job : Job
  pub next : Option ℕ

-- thread_pool_t, over the nodes that were allocated: addresses are numbered in this order and none is
-- used again, since a worker frees a node only behind its job. NULL is none.
pub record Pool (Job : Type 0) : Type 0 where
  pub nodes : ℕ → Option (Node Job)
  pub allocated : ℕ
  pub head : Option ℕ
  pub tail : Option ℕ
  pub stop : Bool
  pub workers : List (Worker Job)

-- `if (pool->head == NULL) pool->tail = NULL;`
abbrev pub tail_behind : Option ℕ → Option ℕ → Option ℕ
tail_behind none tail = none
tail_behind (some a) tail = tail

module _ {Job : Type 0} where
  abbrev pub waiting_workers : ℕ → List (Worker Job)
  waiting_workers zero = []
  waiting_workers (suc n) = waiting ∷ waiting_workers n

  -- `thread_pool_init` where all threads can be created.
  unfoldable pub thread_pool_init : ℕ → Pool Job
  thread_pool_init worker_count = record {
    nodes = λ a. none;
    allocated = 0;
    head = none;
    tail = none;
    stop = false;
    workers = waiting_workers worker_count;
  }

  abbrev pub put_node : ℕ → Option (Node Job) → (ℕ → Option (Node Job)) → ℕ → Option (Node Job)
  put_node address node nodes = λ a. if a == address then node else nodes a

  -- `tail->next = job`
  abbrev pub set_next : ℕ → Node Job → Node Job
  set_next next node = record node { next = some next }

  abbrev pub new_node : Pool Job → Job → ℕ → Option (Node Job)
  new_node p job = put_node p.allocated (some (record { job = job; next = none })) p.nodes

  -- The new job behind the tail, or at the head if there is none.
  abbrev pub link : Job → Pool Job → Option ℕ → Pool Job
  link job p none = record p {
    nodes = new_node p job;
    allocated = p.allocated + 1;
    head = some p.allocated;
    tail = some p.allocated;
  }
  link job p (some last) = record p {
    nodes =
        put_node last (Option.map (set_next p.allocated) (new_node p job last)) (new_node p job);
    allocated = p.allocated + 1;
    tail = some p.allocated;
  }

  -- `thread_pool_submit`; `allocates` says whether calloc returned the job.
  unfoldable pub thread_pool_submit : Bool → Job → Pool Job → Pool Job
  thread_pool_submit allocates job p =
      let linked = link job p p.tail in if allocates then linked else p

  -- The first critical section of `thread_pool_destroy`.
  unfoldable pub request_stop : Pool Job → Pool Job
  request_stop p = record p { stop = true }

  -- The first node leaves the queue. Of an address without a node nothing can be said: it is none.
  abbrev pub take_node : Pool Job → Option (Node Job) → Worker Job × Pool Job
  take_node p none = (waiting, p)
  take_node p (some node) =
      (running node.job, record p { head = node.next; tail = tail_behind node.next p.tail })

  abbrev pub take_head : Pool Job → Option ℕ → Worker Job × Pool Job
  take_head p none = (waiting, p)
  take_head p (some a) = take_node p (p.nodes a)

  -- A worker in its critical section: `stop` comes first, then the head of the queue.
  abbrev pub next_job : Pool Job → Bool → Worker Job × Pool Job
  next_job p true = (exited, p)
  next_job p false = take_head p p.head

  -- A worker takes its next step in `worker_main`: it wakes, or its job returns.
  unfoldable pub worker_step : Pool Job → Worker Job → Worker Job × Pool Job
  worker_step p waiting = next_job p p.stop
  worker_step p (running job) = (waiting, p)
  worker_step p exited = (exited, p)

-- What a step starts: the job of a worker that waited.
abbrev pub started : {Job : Type 0} → Worker Job → Worker Job → List Job
started waiting (running job) = job ∷ []
started _ _ = []

-- The pools that a program reaches by calls and steps of workers in any order, with the jobs that
-- were queued and the jobs that were started, oldest first.
pub data Reached {Job : Type 0} (worker_count : ℕ) : List Job → List Job → Pool Job → Type 0 where
  at_start : Reached worker_count [] [] (thread_pool_init worker_count)
  submitted :
      {queued runs : List Job} {p : Pool Job} (job : Job)
      → Reached worker_count queued runs p
      → Reached worker_count (queued ++ job ∷ []) runs (thread_pool_submit true job p)
  refused_job :
      {queued runs : List Job} {p : Pool Job} (job : Job)
      → Reached worker_count queued runs p
      → Reached worker_count queued runs (thread_pool_submit false job p)
  stopped :
      {queued runs : List Job} {p : Pool Job}
      → Reached worker_count queued runs p
      → Reached worker_count queued runs (request_stop p)
  stepped :
      {queued runs : List Job} {p : Pool Job} (before after : List (Worker Job)) (w : Worker Job)
      → p.workers ≡ before ++ w ∷ after
      → Reached worker_count queued runs p
      → Reached worker_count queued
          (runs ++ started w (worker_step p w).0)
          (record (worker_step p w).1 { workers = before ++ (worker_step p w).0 ∷ after })
