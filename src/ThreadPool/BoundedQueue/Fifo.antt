-- ===== src/ThreadPool/BoundedQueue/Fifo.antt =====
-- limb-queue.hpp: uninterrupted calls, against a bounded first-in first-out list.
use Prim.Native.Nat.{bit_and}
use mathlib.Core.Option
use native.Mathlib.Nat.{mod-eq_of_lt, add-mod_right}
use native.Mathlib.Decide.{dec_lt}
use limb_worker.Prelude.{
  ℕ, zero, suc, ◌+◌, ◌-◌, ◌%◌, ◌^◌, ◌≤◌, ◌<◌, ◌≡◌, refl, sym, ap, ◌∙◌, Bool, true, false, Option,
  none, some, List, [], ◌∷◌, ◌++◌, arith, ltb, lt→ltb, le→ltb, length, get_elem?, if◌then◌else◌,
}
use limb_worker.Prelude.Bits.{pow-pos, pow_of_bit_and, pow-bit_and-pred}
use limb_worker.ThreadPool.BoundedQueue.{
  Queue, Cell, size_mod, make, cell_index, cell_at, push, pop, fresh_cells,
}
use limb_worker.ThreadPool.BoundedQueue.Words.{diff_sign_same, diff_sign_behind, cap_bounds}
use limb_worker.ThreadPool.BoundedQueue.Runs.{
  pushed, popped, push_runs, push_blocked, pop_runs, pop_blocked,
}
use limb_worker.ThreadPool.BoundedQueue.Window.{
  Holds, push-Holds, pop-Holds, slot-lt, first_slot, last_slot,
}

-- The specification: a list of at most `cap` entries, oldest first.
module _ {ℓ} {A : Type ℓ} where
  unfoldable pub offer : ℕ → List A → A → List A × Bool
  offer cap xs a = if ltb (length xs) cap then (xs ++ a ∷ [], true) else (xs, false)

  unfoldable pub poll : List A → List A × Option A × Bool
  poll [] = ([], none, false)
  poll (x ∷ xs) = (xs, some x, true)

  here :
      {k : ℕ} {q : Queue A} {xs : List A} (v : Holds k q xs) (c : Cell A) (i : ℕ) (pos : ℕ)
      → cell_index q pos ≡ (q.dequeue_pos + i) % 2 ^ k
      → get_elem? q.buffer ((q.dequeue_pos + i) % 2 ^ k) ≡ some c
      → cell_at q pos ≡ some c
  unfolding cell_at
  here {q} v c i pos e h = ap (λ t. get_elem? q.buffer t) e ∙ h

  push_full :
      {k : ℕ} {q : Queue A} {xs : List A} (a : A) (ys : List A)
      → xs ≡ ys
      → Holds k q xs
      → 2 ^ k ≤ length xs
      → push q a ≡ some (q, false)
  push_full {k} a [] e v h = absurd (omega (arith, pow-pos k, ap length e))
  push_full {k} {q} {xs} a (y ∷ ys) e v h =
      let n : length xs ≡ 2 ^ k = omega (arith, v.fits) in
      let (two_le, le_half) = cap_bounds k v.large v.small in
      push_blocked q a _
        (here v _ 0 q.enqueue_pos
          (last_slot v
            ∙ ap (λ (t : ℕ). (q.dequeue_pos + t) % 2 ^ k) n
            ∙ add-mod_right q.dequeue_pos (2 ^ k)
            ∙ ap (λ (t : ℕ). t % 2 ^ k) (omega arith))
          (v.full 0 {x = y} (ap (λ (t : List A). get_elem? t 0) e)))
        (diff_sign_behind (q.dequeue_pos + 0 + 1) (2 ^ k - 1) _ _ refl
          (v.ends ∙ ap (λ (t : ℕ). t % size_mod) (omega arith)) (omega arith) (omega arith))

  -- An uninterrupted `push` returns; it appends the entry exactly if there is room for it.
  pub push_refines :
      {k : ℕ} {q : Queue A} {xs : List A} (a : A)
      → Holds k q xs
      → (q' : Queue A) × (push q a ≡ some (q', (offer (2 ^ k) xs a).1))
        × Holds k q' (offer (2 ^ k) xs a).0
  unfolding offer
  push_refines {k} {q} {xs} a v = elim (dec_lt (length xs) (2 ^ k)) [
    | yes room ↦
        let (c, e) = v.free (length xs) (omega arith) room in
        rw (lt→ltb _ _ room) (
          pushed q a,
          push_runs q a _ (here v _ (length xs) q.enqueue_pos (last_slot v) e)
              (diff_sign_same _ q.enqueue_pos (omega (arith, v.ends)) (sym v.ends))
              (slot-lt v q.enqueue_pos),
          push-Holds v a room,
        )
    | no none_left ↦
        rw (le→ltb (length xs) (2 ^ k) (omega arith)) (q, push_full a xs refl v (omega arith), v)
  ]

  pub pop_refines :
      {k : ℕ} {q : Queue A} {xs : List A}
      → Holds k q xs
      → (q' : Queue A) × (pop q ≡ some (q', (poll xs).1, (poll xs).2)) × Holds k q' (poll xs).0
  unfolding poll
  pop_refines {k} {q} {xs = []} v =
      let (c, e) = v.free 0 (omega arith) (pow-pos k) in
      (
        q,
        pop_blocked q _ (here v _ 0 q.dequeue_pos (first_slot v) e)
            (diff_sign_behind q.dequeue_pos 1 _ _ (omega arith) refl (omega arith) (omega arith)),
        v,
      )
  pop_refines {k} {q} {xs = x ∷ xs} v = (
    popped q,
    pop_runs q _ (here v _ 0 q.dequeue_pos (first_slot v) (v.full 0 refl))
        (diff_sign_same _ _ (omega arith) (omega arith)) (slot-lt v q.dequeue_pos),
    pop-Holds v,
  )

zero_of_not_pos : (k : ℕ) → ¬ (0 < k) → k ≡ 0
zero_of_not_pos k h = omega arith

-- Calls in sequence.
pub data Call {ℓ} (A : Type ℓ) : Type ℓ where
  pushes : A → Call A
  pops : Call A

module _ {ℓ} {A : Type ℓ} where
  pub run : Queue A → List (Call A) → Option (List (Bool × Option A))
  run q [] = some []
  run q (pushes a ∷ cs) = elim (push q a) [
    | none ↦ none
    | some (q', ok) ↦ Option.map (◌∷◌ (ok, none)) (run q' cs)
  ]
  run q (pops ∷ cs) = elim (pop q) [
    | none ↦ none
    | some (q', out, ok) ↦ Option.map (◌∷◌ (ok, out)) (run q' cs)
  ]

  unfoldable pub run_fifo : ℕ → List A → List (Call A) → List (Bool × Option A)
  unfolding offer poll
  run_fifo cap xs [] = []
  run_fifo cap xs (pushes a ∷ cs) = ((offer cap xs a).1, none) ∷ run_fifo cap (offer cap xs a).0 cs
  run_fifo cap xs (pops ∷ cs) = ((poll xs).2, (poll xs).1) ∷ run_fifo cap (poll xs).0 cs

  pub run-Holds :
      (cs : List (Call A)) {k : ℕ} {q : Queue A} {xs : List A}
      → Holds k q xs
      → run q cs ≡ some (run_fifo (2 ^ k) xs cs)
  unfolding run run_fifo
  run-Holds [] v = refl
  run-Holds (pushes a ∷ cs) v =
      let (q', e, v') = push_refines a v in rw (e, run) (rw (run-Holds cs v'))
  run-Holds (pops ∷ cs) v = let (q', e, v') = pop_refines v in rw (e, run) (rw (run-Holds cs v'))

module _ {ℓ} (A : Type ℓ) where
  pub length-fresh_cells : (n i : ℕ) → length (fresh_cells {A = A} n i) ≡ n
  unfolding fresh_cells
  length-fresh_cells zero i = refl
  length-fresh_cells (suc n) i = ap suc (length-fresh_cells n (suc i))

  pub get_elem?-fresh_cells :
      (n i j : ℕ)
      → j < n
      → get_elem? (fresh_cells {A = A} n i) j ≡ some (record { sequence = i + j; payload = none })
  unfolding fresh_cells
  get_elem?-fresh_cells zero i j h = absurd (omega arith)
  get_elem?-fresh_cells (suc n) i zero h = ground arith
  get_elem?-fresh_cells (suc n) i (suc j) h =
      get_elem?-fresh_cells n (suc i) j (omega arith) ∙ ground arith

  unfoldable pub start : ℕ → Queue A
  start k = record {
    buffer = fresh_cells (2 ^ k) 0;
    buffer_mask = 2 ^ k - 1;
    enqueue_pos = 0;
    dequeue_pos = 0;
  }

  pub make-eq-start : (k : ℕ) → 1 ≤ k → k ≤ 63 → make (2 ^ k) ≡ some (start k)
  unfolding make start
  make-eq-start k p h = ground (arith, cap_bounds k p h, pow-bit_and-pred k)

  pub start-Holds : (k : ℕ) → 1 ≤ k → k ≤ 63 → Holds k (start k) []
  unfolding start
  start-Holds k p h = record {
    large = p;
    small = h;
    cells = length-fresh_cells (2 ^ k) 0;
    mask = refl;
    fits = omega arith;
    in_word = omega arith;
    ends = refl;
    full = λ i e. absurd (cc);
    free = λ i u r.
        let c = cap_bounds k p h in
        let e : (0 + i) % 2 ^ k ≡ i = ap (λ (t : ℕ). t % 2 ^ k) (omega arith) ∙ mod-eq_of_lt r in
        (none, rw e (get_elem?-fresh_cells (2 ^ k) 0 i r ∙ ground arith));
  }

  -- For each `k` from 1 to 63 the constructor accepts 2 ^ k, and every sequence of uninterrupted
  -- calls on the new queue returns, with the replies of a first-in first-out list that holds at most
  -- 2 ^ k entries.
  pub queue_refines :
      (k : ℕ) (cs : List (Call A))
      → 1 ≤ k
      → k ≤ 63
      → (q : Queue A) × (make (2 ^ k) ≡ some q) × (run q cs ≡ some (run_fifo (2 ^ k) [] cs))
  queue_refines k cs p h = (start k, make-eq-start k p h, run-Holds cs (start-Holds k p h))

  -- The constructor throws unless the size is a power of two from 2 on.
  pub make_pow : (size : ℕ) {q : Queue A} → make size ≡ some q → (k : ℕ) × (1 ≤ k) × (size ≡ 2 ^ k)
  unfolding make
  make_pow size e =
      let accepted : (2 ≤ size) × (bit_and size (size - 1) ≡ 0) = ground arith in
      let (k, h) = pow_of_bit_and size (omega arith) accepted.1 in
      elim (dec_lt 0 k) [
        | yes p ↦ (k, p, h)
        | no z ↦ absurd (omega (arith, ap (λ (t : ℕ). 2 ^ t) (zero_of_not_pos k z)))
      ]
