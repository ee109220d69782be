-- ===== src/ThreadPool/BoundedQueue/Threads/Steps.antt =====
-- limb-queue.hpp: the steps of `push` and `pop` that use a cell, by the cell that they find.
use limb_worker.Prelude.{ℕ, ◌≡◌, Bool, true, false, Option, none, some, arith}
use limb_worker.ThreadPool.BoundedQueue.{
  Queue, Cell, Sign, PushPc, PopPc, add_size, diff_sign, push_step, pop_step, put_cell, cell_at,
}

module _ {ℓ} {A : Type ℓ} (weak : Bool) (q : Queue A) (pos : ℕ) (cell : Cell A)
    (found : cell_at q pos ≡ some cell) where
  pub push_step-same :
      (a : A)
      → diff_sign cell.sequence pos ≡ Sign.same
      → push_step weak q (PushPc.load_sequence pos a) ≡ (q, PushPc.exchange pos a)
  unfolding push_step cell_at
  push_step-same a e = ground (arith, e, found)

  pub push_step-negative :
      (a : A)
      → diff_sign cell.sequence pos ≡ Sign.negative
      → push_step weak q (PushPc.load_sequence pos a) ≡ (q, PushPc.returned false)
  unfolding push_step cell_at
  push_step-negative a e = ground (arith, e, found)

  pub push_step-positive :
      (a : A)
      → diff_sign cell.sequence pos ≡ Sign.positive
      → push_step weak q (PushPc.load_sequence pos a) ≡ (q, PushPc.load_sequence q.enqueue_pos a)
  unfolding push_step cell_at
  push_step-positive a e = ground (arith, e, found)

  pub push_step-write :
      (a : A)
      → push_step weak q (PushPc.write pos a)
        ≡ (put_cell q pos (record cell { payload = some a }), PushPc.publish pos)
  unfolding push_step cell_at
  push_step-write a = ground (arith, found)

  pub push_step-publish :
      push_step weak q (PushPc.publish pos)
      ≡ (put_cell q pos (record cell { sequence = add_size pos 1 }), PushPc.returned true)
  unfolding push_step cell_at
  push_step-publish = ground (arith, found)

  pub pop_step-same :
      diff_sign cell.sequence (add_size pos 1) ≡ Sign.same
      → pop_step weak q (PopPc.load_sequence pos) ≡ (q, PopPc.exchange pos)
  unfolding pop_step cell_at
  pop_step-same e = ground (arith, e, found)

  pub pop_step-negative :
      diff_sign cell.sequence (add_size pos 1) ≡ Sign.negative
      → pop_step weak q (PopPc.load_sequence pos) ≡ (q, PopPc.returned none false)
  unfolding pop_step cell_at
  pop_step-negative e = ground (arith, e, found)

  pub pop_step-positive :
      diff_sign cell.sequence (add_size pos 1) ≡ Sign.positive
      → pop_step weak q (PopPc.load_sequence pos) ≡ (q, PopPc.load_sequence q.dequeue_pos)
  unfolding pop_step cell_at
  pop_step-positive e = ground (arith, e, found)

  pub pop_step-read :
      pop_step weak q (PopPc.read pos)
      ≡ (put_cell q pos (record cell { payload = none }), PopPc.release pos cell.payload)
  unfolding pop_step cell_at
  pop_step-read = ground (arith, found)

  pub pop_step-release :
      (out : Option A)
      → pop_step weak q (PopPc.release pos out) ≡ (
        put_cell q pos (record cell { sequence = add_size (add_size pos q.buffer_mask) 1 }),
        PopPc.returned out true,
      )
  unfolding pop_step cell_at
  pop_step-release out = ground (arith, found)
