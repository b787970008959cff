-- ===== src/ThreadPool/Lifecycle/Laws.antt =====
-- What is left of a pool after it was made and destroyed.
use ott_server.Base.{
  Bool, arith, false, if◌then◌else◌, le→ltb-false, ltb, refl, subst, suc, sym, true, zero, ℕ, ◌+◌,
  ◌==◌, ◌∙◌, ◌≡◌,
}
use ott_server.Server.Loop.Laws.{count}
use ott_server.Server.Start.Laws.{held}
use ott_server.ThreadPool.Lifecycle.{
  Creation, Held, create_workers, destroy_held, init_held, join_workers, no_workers, release,
  set_runs,
}

-- Nothing is held, and no worker runs.
abbrev pub IsReleased : Held → Type 0
IsReleased h =
    (h.mutex ≡ false) × (h.cond ≡ false) × (h.array ≡ false) × ((j : ℕ) → h.runs j ≡ false)

-- Exactly the workers below a number run.
abbrev pub RunsBelow : ℕ → Held → Type 0
RunsBelow i h = (j : ℕ) → h.runs j ≡ ltb j i

ltb-suc : (j i : ℕ) → ltb j (suc i) ≡ (if j == i then true else ltb j i)
ltb-suc j i = ground arith

join_workers-runs :
    (i : ℕ) (h : Held) (j : ℕ) → (join_workers i h).runs j ≡ (if ltb j i then false else h.runs j)
unfolding join_workers
join_workers-runs zero h j = rw (le→ltb-false j 0 (omega arith)) refl
join_workers-runs (suc i) h j = rw (ltb-suc j i) (go (j == i) (join_workers-runs i h j))
  where
    go :
        (b : Bool)
        → (join_workers i h).runs j ≡ (if ltb j i then false else h.runs j)
        → (if b then false else (join_workers i h).runs j)
          ≡ (if (if b then true else ltb j i) then false else h.runs j)
    go true before = refl
    go false before = before

join_workers-IsReleased :
    (i : ℕ) (h : Held) → RunsBelow i h → IsReleased (release (join_workers i h))
join_workers-IsReleased i h below =
    (refl, refl, refl, λ j. join_workers-runs i h j ∙ rw (below j) (go (ltb j i)))
  where
    go : (b : Bool) → (if b then false else b) ≡ false
    go true = refl
    go false = refl

one_more : (i : ℕ) (h : Held) → RunsBelow i h → RunsBelow (suc i) (set_runs i true h)
one_more i h below j = rw (below j) (sym (ltb-suc j i))

-- All run, or nothing is held.
abbrev IsCreated : ℕ → Held × Bool → Type 0
IsCreated count result = if result.1 then RunsBelow count result.0 else IsReleased result.0

create_workers_lem :
    (creates : ℕ → Bool) (i n : ℕ) (h : Held)
    → RunsBelow i h
    → IsCreated (i + n) (create_workers creates i n h)
unfolding create_workers
create_workers_lem creates i zero h below = subst (λ k. RunsBelow k h) (omega arith) below
create_workers_lem creates i (suc n) h below =
    go (creates i) (create_workers creates (suc i) n (set_runs i true h))
      (create_workers_lem creates (suc i) n (set_runs i true h) (one_more i h below))
  where
    go :
        (b : Bool) (rest : Held × Bool)
        → IsCreated (suc i + n) rest
        → IsCreated (i + suc n) (if b then rest else (release (join_workers i h), false))
    go true rest r = subst (λ k. IsCreated k rest) (omega arith) r
    go false rest r = join_workers-IsReleased i h below

-- Whichever of its calls fail, thread_pool_init leaves nothing behind if it returns -1: the workers
-- that it created are joined, and the rest is released. If it returns 0, exactly the workers below
-- their number run, and thread_pool_destroy then joins and releases all.
pub thread_pool_lifecycle :
    (calls : Creation) (worker_count : ℕ)
    → let (held, success) = init_held calls worker_count in
      if success
      then RunsBelow worker_count held × IsReleased (destroy_held worker_count held)
      else IsReleased held
unfolding init_held destroy_held
thread_pool_lifecycle calls worker_count = go calls.makes_mutex calls.makes_cond calls.allocates
  where
    all_run :
        (result : Held × Bool)
        → IsCreated (0 + worker_count) result
        → (if result.1
            then RunsBelow worker_count result.0 × IsReleased (destroy_held worker_count result.0)
            else IsReleased result.0)
    all_run (h, true) below =
        let all = subst (λ k. RunsBelow k h) (omega arith) below in
        (all, join_workers-IsReleased worker_count h all)
    all_run (h, false) left = left

    go :
        (m c a : Bool)
        → let result =
            init_held
              (record calls { makes_mutex = m; makes_cond = c; allocates = a })
              worker_count in
          if result.1
          then RunsBelow worker_count result.0 × IsReleased (destroy_held worker_count result.0)
          else IsReleased result.0
    go false c a = (refl, refl, refl, λ j. refl)
    go true false a = (refl, refl, refl, λ j. refl)
    go true true false = (refl, refl, refl, λ j. refl)
    go true true true = all_run (create_workers calls.creates 0 worker_count no_workers) (
        create_workers_lem calls.creates 0 worker_count no_workers
          (λ j. sym (le→ltb-false j 0 (omega arith))))
