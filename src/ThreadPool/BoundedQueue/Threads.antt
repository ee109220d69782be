-- ===== src/ThreadPool/BoundedQueue/Threads.antt =====
-- limb-queue.hpp: any number of threads that call `push` and `pop` of one queue, step by step.
pub mod Views
pub mod Coherent
pub mod Entering
pub mod Filling
pub mod Leaving
pub mod Emptying
pub mod Releasing
pub mod Cells
pub mod Sound
pub mod Steps
pub mod Pushing
pub mod Popping
pub mod Runs
pub mod Delivery
pub mod Ranks
pub mod Nearer
pub mod Progress
pub mod Quiet
use limb_worker.Prelude.{
  ℕ, ◌+◌, Bool, true, false, Option, none, some, List, [], ◌∷◌, ◌++◌, ◌==◌, if◌then◌else◌,
}
use limb_worker.ThreadPool.BoundedQueue.{Queue, PushPc, PopPc, push_step, pop_step}

pub data Thread {ℓ} (A : Type ℓ) : Type ℓ where
  idle : Thread A
  pushing : PushPc A → Thread A
  popping : PopPc A → Thread A

-- `entered` and `left` are a log: the entries by the order of their exchanges, and for each `pop` that
-- succeeded its position and its entry, newest first.
pub record System {ℓ} (A : Type ℓ) : Type ℓ where
  pub queue : Queue A
  pub threads : ℕ → Thread A
  pub entered : List A
  pub left : List (ℕ × Option A)

-- A thread that is in no call makes one, or takes a step of its call; `weak` as in `push_step`.
pub data Action {ℓ} (A : Type ℓ) : Type ℓ where
  calls_push : ℕ → A → Action A
  calls_pop : ℕ → Action A
  runs : ℕ → Bool → Action A

module _ {ℓ} {A : Type ℓ} where
  abbrev pub update : (ℕ → Thread A) → ℕ → Thread A → ℕ → Thread A
  update f i t j = if j == i then t else f j

  abbrev pub is_done : Thread A → Bool
  is_done Thread.idle = true
  is_done (Thread.pushing (PushPc.load_pos a)) = false
  is_done (Thread.pushing (PushPc.load_sequence pos a)) = false
  is_done (Thread.pushing (PushPc.exchange pos a)) = false
  is_done (Thread.pushing (PushPc.write pos a)) = false
  is_done (Thread.pushing (PushPc.publish pos)) = false
  is_done (Thread.pushing (PushPc.returned ok)) = true
  is_done (Thread.pushing PushPc.fault) = false
  is_done (Thread.popping PopPc.load_pos) = false
  is_done (Thread.popping (PopPc.load_sequence pos)) = false
  is_done (Thread.popping (PopPc.exchange pos)) = false
  is_done (Thread.popping (PopPc.read pos)) = false
  is_done (Thread.popping (PopPc.release pos out)) = false
  is_done (Thread.popping (PopPc.returned out ok)) = true
  is_done (Thread.popping PopPc.fault) = false

  -- The log behind a step of `push`: the exchange puts the entry in order.
  abbrev pub enters : PushPc A → PushPc A → List A → List A
  enters (PushPc.exchange pos a) (PushPc.write pos' b) log = log ++ a ∷ []
  enters before after log = log

  abbrev pub leaves : PopPc A → PopPc A → List (ℕ × Option A) → List (ℕ × Option A)
  leaves (PopPc.release pos out) (PopPc.returned out' ok) log = (pos, out) ∷ log
  leaves before after log = log

  -- One step of thread `i`, which stands at the given place.
  unfoldable pub run_at : Bool → ℕ → Thread A → System A → System A
  run_at weak i Thread.idle s = s
  run_at weak i (Thread.pushing pc) s =
      let (queue, pc') = push_step weak s.queue pc in
      record s {
        queue = queue;
        threads = update s.threads i (Thread.pushing pc');
        entered = enters pc pc' s.entered;
      }
  run_at weak i (Thread.popping pc) s =
      let (queue, pc') = pop_step weak s.queue pc in
      record s {
        queue = queue;
        threads = update s.threads i (Thread.popping pc');
        left = leaves pc pc' s.left;
      }

  unfoldable pub act : Action A → System A → System A
  unfolding run_at
  act (Action.calls_push i a) s =
      if is_done (s.threads i)
      then record s { threads = update s.threads i (Thread.pushing (PushPc.load_pos a)) }
      else s
  act (Action.calls_pop i) s =
      if is_done (s.threads i)
      then record s { threads = update s.threads i (Thread.popping PopPc.load_pos) }
      else s
  act (Action.runs i weak) s = run_at weak i (s.threads i) s

  unfoldable pub run_system : List (Action A) → System A → System A
  unfolding act
  run_system [] s = s
  run_system (a ∷ rest) s = run_system rest (act a s)

  unfoldable pub begin : Queue A → System A
  begin q = record { queue = q; threads = λ i. Thread.idle; entered = []; left = [] }
