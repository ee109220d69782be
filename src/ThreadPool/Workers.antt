-- ===== src/ThreadPool/Workers.antt =====
-- include/thread-pool/worker.hpp and thread-pool.hpp: the workers of a pool, step by step. A call of
-- the queue is one step here; ThreadPool/BoundedQueue has its own steps and their order.
pub mod Tasks
pub mod Shutdown
use limb_worker.Prelude.{
  ℕ, zero, suc, ◌+◌, Bool, true, false, Option, none, some, List, [], ◌∷◌, ◌++◌, map, get_elem?,
  set, length, if◌then◌else◌,
}
use limb_worker.ThreadPool.BoundedQueue.Fifo.{offer, poll}

-- Where a worker stands in `threadFunc`: at the loop's test, at the two halves of the predicate of
-- `cv.wait`, between a predicate that fails and the block, blocked, and at `handler()`.
pub data Phase : Type 0 where
  tests_flag pops tests_stop blocks blocked calls ended : Phase

-- `handler` is `none` for a function object without a function, whose call throws; the worker
-- suppresses what a call throws.
pub record Worker {ℓ} (A : Type ℓ) : Type ℓ where
  pub running : Bool
  pub phase : Phase
  pub handler : Option A

-- `posted` and `called` are the log: the tasks that the queue took, and the calls, newest first.
pub record Pool {ℓ} (A : Type ℓ) : Type ℓ where
  pub capacity : ℕ
  pub queue : List A
  pub workers : List (Worker A)
  pub posted : List A
  pub called : List A

-- What a thread does next: a worker's step, `push` and `notify_one` of `tryPost` (it wakes the worker
-- named), `stop` of a worker, and `notify_all`.
pub data Action {ℓ} (A : Type ℓ) : Type ℓ where
  runs : ℕ → Action A
  pushes : A → Action A
  notifies_one : ℕ → Action A
  stops : ℕ → Action A
  notifies_all : Action A

module _ {ℓ} {A : Type ℓ} where
  -- The constructor of a worker, and `start`.
  abbrev pub fresh_worker : Worker A
  fresh_worker = record { running = true; phase = Phase.tests_flag; handler = none }

  abbrev pub stop : Worker A → Worker A
  stop w = record w { running = false }

  abbrev pub wake_by : Phase → Worker A → Worker A
  wake_by Phase.tests_flag w = w
  wake_by Phase.pops w = w
  wake_by Phase.tests_stop w = w
  wake_by Phase.blocks w = w
  wake_by Phase.blocked w = record w { phase = Phase.pops }
  wake_by Phase.calls w = w
  wake_by Phase.ended w = w

  abbrev pub wake : Worker A → Worker A
  wake w = wake_by w.phase w

  -- A pop that fails leaves the handler of the round before in place.
  abbrev pub take_task : List A × Option A × Bool → Worker A → List A × Worker A
  take_task (queue, out, true) w = (queue, record w { handler = out; phase = Phase.calls })
  take_task (queue, out, false) w = (queue, record w { phase = Phase.tests_stop })

  -- One step of `threadFunc`: the queue, the worker, and the task that is called.
  abbrev pub step_at : Phase → List A → Worker A → (List A × Worker A) × List A
  step_at Phase.tests_flag queue w =
      ((queue, record w { phase = if w.running then Phase.pops else Phase.ended }), [])
  step_at Phase.pops queue w = (take_task (poll queue) w, [])
  step_at Phase.tests_stop queue w =
      ((queue, record w { phase = if w.running then Phase.blocks else Phase.calls }), [])
  step_at Phase.blocks queue w = ((queue, record w { phase = Phase.blocked }), [])
  step_at Phase.blocked queue w = ((queue, w), [])
  step_at Phase.calls queue w = (
    (queue, record w { phase = Phase.tests_flag }),
    elim w.handler [ none ↦ [] | some a ↦ a ∷ [] ],
  )
  step_at Phase.ended queue w = ((queue, w), [])

  abbrev pub thread_func : List A → Worker A → (List A × Worker A) × List A
  thread_func queue w = step_at w.phase queue w

  -- A worker out of range does not exist, so no step is its step.
  abbrev pub at_found :
      (Worker A → Worker A) → ℕ → List (Worker A) → Option (Worker A) → List (Worker A)
  at_found f i ws none = ws
  at_found f i ws (some w) = set ws i (f w)

  abbrev pub at_worker : (Worker A → Worker A) → ℕ → List (Worker A) → List (Worker A)
  at_worker f i ws = at_found f i ws (get_elem? ws i)

  abbrev pub run_found : ℕ → Pool A → Option (Worker A) → Pool A
  run_found i p none = p
  run_found i p (some w) =
      let ((queue, w'), call) = thread_func p.queue w in
      record p { queue = queue; workers = set p.workers i w'; called = call ++ p.called }

  unfoldable pub act : Action A → Pool A → Pool A
  act (Action.runs i) p = run_found i p (get_elem? p.workers i)
  act (Action.pushes a) p =
      let (queue, ok) = offer p.capacity p.queue a in
      record p { queue = queue; posted = if ok then a ∷ p.posted else p.posted }
  act (Action.notifies_one i) p = record p { workers = at_worker wake i p.workers }
  act (Action.stops i) p = record p { workers = at_worker stop i p.workers }
  act Action.notifies_all p = record p { workers = map wake p.workers }

  unfoldable pub run_pool : List (Action A) → Pool A → Pool A
  unfolding act
  run_pool [] p = p
  run_pool (a ∷ rest) p = run_pool rest (act a p)

  unfoldable pub fresh_workers : ℕ → List (Worker A)
  fresh_workers zero = []
  fresh_workers (suc n) = fresh_worker ∷ fresh_workers n

  -- The constructor, of `threadCount()` workers; the queue's own is `BoundedQueue.make`.
  unfoldable pub construct : ℕ → ℕ → Pool A
  unfolding fresh_workers
  construct threads capacity = record {
    capacity = capacity;
    queue = [];
    workers = fresh_workers threads;
    posted = [];
    called = [];
  }

  -- `tryPost`: the worker that `notify_one` wakes is the system's choice.
  unfoldable pub try_post : ℕ → A → Pool A → Pool A × Bool
  unfolding act
  try_post chosen a p =
      let (queue, ok) = offer p.capacity p.queue a in
      let pushed = act (Action.pushes a) p in
      if ok then (act (Action.notifies_one chosen) pushed, true) else (pushed, false)

  stop_all : ℕ → ℕ → List (Action A)
  stop_all zero i = []
  stop_all (suc n) i = Action.stops i ∷ stop_all n (i + 1)

  -- The destructor, up to `join`: the workers may run between its actions.
  unfoldable pub destroy : Pool A → List (Action A)
  unfolding stop_all
  destroy p = stop_all (length p.workers) 0 ++ (Action.notifies_all ∷ [])
