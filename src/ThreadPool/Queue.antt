-- ===== src/ThreadPool/Queue.antt =====
-- The linked list of a pool holds its jobs in order.
use ott_server.Base.{
  ==_refl, Bool, List, Option, [], arith, false, inl, inr, none, refl, some, subst, sym, true, ℕ,
  ◌++◌, ◌<◌, ◌==◌, ◌∙◌, ◌∷◌, ◌≡◌, ◌≤◌, ◌⊎◌,
}
use ott_server.ThreadPool.{
  Node, Pool, Worker, exited, next_job, running, started, take_head, take_node, thread_pool_submit,
  waiting, worker_step,
}

below-== : (a b : ℕ) → a < b → (a == b) ≡ false
below-== a b h = ground arith

above-== : (a b : ℕ) → a < b → (b == a) ≡ false
above-== a b h = ground arith

module _ {Job : Type 0} where
  -- From the first address to the last: nodes with these jobs, each with the address of the next.
  pub data Linked (nodes : ℕ → Option (Node Job)) : ℕ → ℕ → List Job → Type 0 where
    last_node :
        {a : ℕ} {job : Job}
        → nodes a ≡ some (record { job = job; next = none })
        → Linked nodes a a (job ∷ [])
    next_node :
        {a b last : ℕ} {job : Job} {jobs : List Job}
        → nodes a ≡ some (record { job = job; next = some b })
        → a < b
        → Linked nodes b last jobs
        → Linked nodes a last (job ∷ jobs)

  -- No jobs, and neither a head nor a tail; or a linked list from the head to the tail.
  abbrev pub IsQueue : Pool Job → List Job → Type 0
  IsQueue p jobs =
      ((jobs ≡ []) × (p.head ≡ none) × (p.tail ≡ none))
      ⊎ ((first last : ℕ) × (p.head ≡ some first)
          × (p.tail ≡ some last)
          × (last < p.allocated)
          × Linked p.nodes first last jobs)

  Linked-le :
      {nodes : ℕ → Option (Node Job)} (a last : ℕ) (jobs : List Job)
      → Linked nodes a last jobs
      → a ≤ last
  Linked-le a _ _ (last_node e) = omega arith
  Linked-le a last _ (next_node {b = b} {jobs = jobs} e less l) =
      omega (arith, Linked-le b last jobs l)

  -- The list with a further node behind its last one.
  Linked-append :
      (nodes after : ℕ → Option (Node Job)) (new : ℕ) (job : Job) (a last : ℕ) (jobs : List Job)
      → last < new
      → ((k : ℕ) → k < last → after k ≡ nodes k)
      → ((old : Job)
          → nodes last ≡ some (record { job = old; next = none })
          → after last ≡ some (record { job = old; next = some new }))
      → after new ≡ some (record { job = job; next = none })
      → Linked nodes a last jobs
      → Linked after a new (jobs ++ job ∷ [])
  Linked-append nodes after new job a _ _ less same linked fresh (last_node {job = old} e) =
      next_node (linked old e) less (last_node fresh)
  Linked-append nodes after new job a last _ less same linked fresh
        (next_node {b = b} {jobs = jobs} e order l) =
      next_node (same a (omega (arith, Linked-le b last jobs l)) ∙ e) order
        (Linked-append nodes after new job b last jobs less same linked fresh l)

  pub thread_pool_submit-IsQueue :
      (job : Job) (p : Pool Job) (jobs : List Job)
      → IsQueue p jobs
      → IsQueue (thread_pool_submit true job p) (jobs ++ job ∷ [])
  unfolding thread_pool_submit
  thread_pool_submit-IsQueue job p jobs (inl (empty, no_head, no_tail)) =
      rw (no_tail, empty)
        (inr (
          p.allocated,
          p.allocated,
          refl,
          refl,
          omega arith,
          last_node (rw (==_refl p.allocated) refl),
        ))
  thread_pool_submit-IsQueue job p jobs (inr (first, last, head_at, tail_at, below, l)) =
      rw tail_at (
        inr (
          first,
          p.allocated,
          head_at,
          refl,
          omega arith,
          Linked-append p.nodes _ p.allocated job first last jobs below
              (λ k less. rw (below-== k last less, below-== k p.allocated (omega arith)) refl)
              (λ old e. rw (==_refl last, below-== last p.allocated below, e) refl)
              (rw (above-== last p.allocated below, ==_refl p.allocated) refl) l,
        ))

  -- The step of a worker starts the first job of the queue, or none.
  pub worker_step-IsQueue :
      (p : Pool Job) (w : Worker Job) (jobs : List Job)
      → IsQueue p jobs
      → (rest : List Job) × (jobs ≡ started w (worker_step p w).0 ++ rest)
        × IsQueue (worker_step p w).1 rest
  unfolding worker_step
  worker_step-IsQueue p (running job) jobs q = (jobs, refl, q)
  worker_step-IsQueue p exited jobs q = (jobs, refl, q)
  worker_step-IsQueue p waiting jobs q = by_stop p.stop
    where
      Step : Worker Job × Pool Job → Type 0
      Step r = (rest : List Job) × (jobs ≡ started waiting r.0 ++ rest) × IsQueue r.1 rest

      from_list :
          (first last : ℕ) (js : List Job)
          → p.tail ≡ some last
          → last < p.allocated
          → jobs ≡ js
          → Linked p.nodes first last js
          → Step (take_node p (p.nodes first))
      from_list first _ _ tail_at below e (last_node n) = rw n ([], e, inl (refl, refl, refl))
      from_list first last _ tail_at below e (next_node {b = b} {jobs = rest} n order l) =
          rw n (rest, e, inr (b, last, refl, tail_at, below, l))

      from_queue : IsQueue p jobs → Step (take_head p p.head)
      from_queue (inl (empty, no_head, no_tail)) =
          subst (λ h. Step (take_head p h)) (sym no_head) (jobs, refl, q)
      from_queue (inr (first, last, head_at, tail_at, below, l)) =
          subst (λ h. Step (take_head p h)) (sym head_at)
            (from_list first last jobs tail_at below refl l)

      by_stop : (b : Bool) → Step (next_job p b)
      by_stop true = (jobs, refl, q)
      by_stop false = from_queue q
