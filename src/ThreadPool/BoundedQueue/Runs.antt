-- ===== src/ThreadPool/BoundedQueue/Runs.antt =====
-- limb-queue.hpp: what an uninterrupted `push` or `pop` does, by the cell that it finds.
use limb_worker.Prelude.{
  ℕ, zero, suc, ◌<◌, ◌≡◌, refl, ap, true, false, none, some, List, [], ◌∷◌, arith, length, set,
  get_elem?-set_self,
}
use limb_worker.ThreadPool.BoundedQueue.{
  Queue, Cell, add_size, cell_index, cell_at, put_cell, diff_sign, Sign, push, pop,
}

module _ {ℓ} {A : Type ℓ} where
  set-set : (xs : List A) (i : ℕ) (v w : A) → set (set xs i v) i w ≡ set xs i w
  set-set [] i v w = refl
  set-set (x ∷ xs) zero v w = refl
  set-set (x ∷ xs) (suc i) v w = ap (◌∷◌ x) (set-set xs i v w)

module _ {ℓ} {A : Type ℓ} (q : Queue A) where
  abbrev pub pushed : A → Queue A
  pushed a = record q {
    buffer =
        set q.buffer (cell_index q q.enqueue_pos)
          (record { sequence = add_size q.enqueue_pos 1; payload = some a });
    enqueue_pos = add_size q.enqueue_pos 1;
  }

  pub push_runs :
      (a : A) (c : Cell A)
      → cell_at q q.enqueue_pos ≡ some c
      → diff_sign c.sequence q.enqueue_pos ≡ Sign.same
      → cell_index q q.enqueue_pos < length q.buffer
      → push q a ≡ some (pushed a, true)
  unfolding push cell_at put_cell
  push_runs a c e d h = ground (
    arith,
    get_elem?-set_self q.buffer (cell_index q q.enqueue_pos) (record c { payload = some a }) h,
    set-set q.buffer (cell_index q q.enqueue_pos) (record c { payload = some a })
        (record { sequence = add_size q.enqueue_pos 1; payload = some a }),
  )

  pub push_blocked :
      (a : A) (c : Cell A)
      → cell_at q q.enqueue_pos ≡ some c
      → diff_sign c.sequence q.enqueue_pos ≡ Sign.negative
      → push q a ≡ some (q, false)
  unfolding push
  push_blocked a c e d = ground arith

  abbrev pub popped : Queue A
  popped = record q {
    buffer =
        set q.buffer (cell_index q q.dequeue_pos)
          (record { sequence = add_size (add_size q.dequeue_pos q.buffer_mask) 1; payload = none });
    dequeue_pos = add_size q.dequeue_pos 1;
  }

  pub pop_runs :
      (c : Cell A)
      → cell_at q q.dequeue_pos ≡ some c
      → diff_sign c.sequence (add_size q.dequeue_pos 1) ≡ Sign.same
      → cell_index q q.dequeue_pos < length q.buffer
      → pop q ≡ some (popped, c.payload, true)
  unfolding pop cell_at put_cell
  pop_runs c e d h = ground (
    arith,
    get_elem?-set_self q.buffer (cell_index q q.dequeue_pos) (record c { payload = none }) h,
    set-set q.buffer (cell_index q q.dequeue_pos) (record c { payload = none })
        (record { sequence = add_size (add_size q.dequeue_pos q.buffer_mask) 1; payload = none }),
  )

  pub pop_blocked :
      (c : Cell A)
      → cell_at q q.dequeue_pos ≡ some c
      → diff_sign c.sequence (add_size q.dequeue_pos 1) ≡ Sign.negative
      → pop q ≡ some (q, none, false)
  unfolding pop
  pop_blocked c e d = ground arith
