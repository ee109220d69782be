-- ===== src/ThreadPool/BoundedQueue/Threads/Sound.antt =====
-- limb-queue.hpp: the invariant of the whole system, and a step that leaves the queue alone.
use limb_worker.Prelude.{
  ℕ, ◌+◌, ◌^◌, ◌≤◌, ◌<◌, ◌≡◌, sym, ap, subst, Bool, Option, none, some, List, arith,
}
use limb_worker.ThreadPool.BoundedQueue.{
  Queue, Cell, PushPc, PopPc, size_mod, add_size, push_step, pop_step, put_cell,
}
use limb_worker.ThreadPool.BoundedQueue.Threads.{Thread, System, update, enters, leaves, run_at}
use limb_worker.ThreadPool.BoundedQueue.Threads.Views.{
  writer, reader, seen, loaded, carried, filled, faulted,
}
use limb_worker.ThreadPool.BoundedQueue.Threads.Coherent.{Coherent, look-Coherent, put}
use limb_worker.ThreadPool.BoundedQueue.Threads.Cells.{
  cells, IsRing, put_cell-IsRing, cells-put_cell,
}

module _ {ℓ} {A : Type ℓ} where
  -- After `n` actions on a queue of 2 ^ k cells.
  pub record Sound (k n : ℕ) (s : System A) : Type ℓ where
    pub large : 2 ≤ 2 ^ k
    pub is_ring : IsRing k s.queue
    pub few : s.queue.enqueue_pos ≤ n
    pub coherent :
        Coherent
          (2 ^ k)
          s.queue.enqueue_pos
          s.queue.dequeue_pos
          (cells k s.queue)
          s.threads
          s.entered
          s.left

  pub look-Sound :
      (k n : ℕ) (s : System A) (i : ℕ) (t : Thread A)
      → Sound k n s
      → writer t ≡ writer (s.threads i)
      → reader t ≡ reader (s.threads i)
      → ((u : ℕ × ℕ) → seen t ≡ some u → u.1 ≤ (cells k s.queue u.0).sequence)
      → ((p : ℕ) → loaded t ≡ some p → p ≤ s.queue.enqueue_pos)
      → carried t ≡ none
      → filled t ≡ none
      → faulted t ≡ none
      → Sound k (n + 1) (record s { threads = update s.threads i t })
  look-Sound k n s i t v w r see load carry fill fault = record {
    large = v.large;
    is_ring = v.is_ring;
    few = omega (arith, v.few);
    coherent = look-Coherent v.coherent i t w r see load carry fill fault;
  }

  -- A write to a cell, with what the thread becomes.
  pub put-Sound :
      (k n : ℕ) (s : System A) (pos : ℕ) (x : Cell A) (threads : ℕ → Thread A)
      (left : List (ℕ × Option A))
      → Sound k n s
      → Coherent
          (2 ^ k)
          s.queue.enqueue_pos
          s.queue.dequeue_pos
          (put (2 ^ k) (cells k s.queue) pos x)
          threads
          s.entered
          left
      → Sound k
          (n + 1)
          (record s { queue = put_cell s.queue pos x; threads = threads; left = left })
  unfolding put_cell
  put-Sound k n s pos x threads left v c = record {
    large = v.large;
    is_ring = put_cell-IsRing k s.queue pos x v.is_ring;
    few = omega (arith, v.few);
    coherent =
        subst
          (λ f. Coherent (2 ^ k) s.queue.enqueue_pos s.queue.dequeue_pos f threads s.entered left)
          (sym (cells-put_cell k s.queue pos x v.is_ring)) c;
  }

  -- What a step makes of the system, from what it makes of the queue.
  pub run_at-push :
      (weak : Bool) (i : ℕ) (pc pc' : PushPc A) (s : System A) (q : Queue A)
      → push_step weak s.queue pc ≡ (q, pc')
      → run_at weak i (Thread.pushing pc) s ≡ record s {
        queue = q;
        threads = update s.threads i (Thread.pushing pc');
        entered = enters pc pc' s.entered;
      }
  unfolding run_at
  run_at-push weak i pc pc' s q e =
      ap
        (λ (r : Queue A × PushPc A). record s {
          queue = r.0;
          threads = update s.threads i (Thread.pushing r.1);
          entered = enters pc r.1 s.entered;
        })
        e

  pub run_at-pop :
      (weak : Bool) (i : ℕ) (pc pc' : PopPc A) (s : System A) (q : Queue A)
      → pop_step weak s.queue pc ≡ (q, pc')
      → run_at weak i (Thread.popping pc) s ≡ record s {
        queue = q;
        threads = update s.threads i (Thread.popping pc');
        left = leaves pc pc' s.left;
      }
  unfolding run_at
  run_at-pop weak i pc pc' s q e =
      ap
        (λ (r : Queue A × PopPc A). record s {
          queue = r.0;
          threads = update s.threads i (Thread.popping r.1);
          left = leaves pc r.1 s.left;
        })
        e

module _ {ℓ} {A : Type ℓ} (k n : ℕ) (s : System A) (v : Sound k n s)
    (few : n + 2 ^ k + 1 < size_mod) where
  open v use {coherent}

  pub no_wrap : (p : ℕ) → p ≤ n → add_size p 1 ≡ p + 1
  no_wrap p h = omega (arith, few, h)

  pub sequence_in_word : (p : ℕ) → (cells k s.queue p).sequence < size_mod
  sequence_in_word p = omega (arith, coherent.low p, coherent.ordered, v.few, few)
