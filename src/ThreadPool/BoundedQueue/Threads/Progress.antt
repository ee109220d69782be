-- ===== src/ThreadPool/BoundedQueue/Threads/Progress.antt =====
-- limb-queue.hpp: a call that runs alone, from wherever the other threads stand, returns.
use limb_worker.Prelude.{
  ℕ, zero, suc, ◌+◌, ◌^◌, ◌≤◌, ◌<◌, ◌≡◌, refl, true, false, some, List, [], ◌∷◌, arith, length,
}
use limb_worker.ThreadPool.BoundedQueue.{Queue, size_mod, make}
use limb_worker.ThreadPool.BoundedQueue.Words.{cap_bounds}
use limb_worker.ThreadPool.BoundedQueue.Threads.{
  System, Action, is_done, run_at, act, run_system, begin,
}
use limb_worker.ThreadPool.BoundedQueue.Threads.Sound.{Sound}
use limb_worker.ThreadPool.BoundedQueue.Threads.Runs.{act-Sound}
use limb_worker.ThreadPool.BoundedQueue.Threads.Delivery.{reached}
use limb_worker.ThreadPool.BoundedQueue.Threads.Ranks.{rank, rank-le, rank-done}
use limb_worker.ThreadPool.BoundedQueue.Threads.Nearer.{nearer}

module _ {ℓ} {A : Type ℓ} where
  -- `n` steps of thread `i`.
  unfoldable pub alone : ℕ → ℕ → List (Action A)
  alone zero i = []
  alone (suc n) i = Action.runs i false ∷ alone n i

  alone-returns :
      (n k m i : ℕ) (s : System A)
      → Sound k m s
      → 2 ^ k ≤ 2 ^ 63
      → m + n + 2 ^ k < size_mod
      → rank s.queue (s.threads i) ≤ n
      → is_done ((run_system (alone n i) s).threads i) ≡ true
  unfolding run_system alone act
  alone-returns zero k m i s v half few near =
      rank-done s.queue (s.threads i) near (v.coherent.sound i)
  alone-returns (suc n) k m i s v half few near =
      alone-returns n k (m + 1) i (run_at false i (s.threads i) s)
        (act-Sound k m s v (omega arith) (Action.runs i false)) half (omega arith)
        (omega (arith, nearer k m s v half (omega arith) i (s.threads i) refl, near))

  -- After fewer than 2 ^ 64 - 2 ^ k - 6 steps of any number of threads, in any order, on a new queue of
  -- 2 ^ k cells, k from 1 to 63, each call returns within six steps in which its exchanges do not fail
  -- without cause, if no other thread takes a step meanwhile.
  pub run_system-returns :
      (k : ℕ) (actions : List (Action A)) (q : Queue A) (i : ℕ)
      → 1 ≤ k
      → k ≤ 63
      → length actions + 6 + 2 ^ k < size_mod
      → make (2 ^ k) ≡ some q
      → is_done ((run_system (alone 6 i) (run_system actions (begin q))).threads i) ≡ true
  run_system-returns k actions q i p h few e =
      let s = run_system actions (begin q) in
      alone-returns 6 k (length actions) i s (reached k actions p h (omega arith) q e)
        (cap_bounds k p h).1 few (rank-le s.queue (s.threads i))
