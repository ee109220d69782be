-- ===== src/ThreadPool/BoundedQueue/Threads/Delivery.antt =====
-- limb-queue.hpp: what the threads of one queue get from it, and that they do not disturb each other.
use limb_worker.Prelude.{
  ℕ, ◌+◌, ◌%◌, ◌^◌, ◌≤◌, ◌<◌, ◌≡◌, ◌≢◌, ◌⊎◌, inl, inr, sym, ap, subst, ◌∙◌, Option, none, some,
  List, [], ◌∷◌, arith, length, get_elem?,
}
use limb_worker.ThreadPool.BoundedQueue.{Queue, Cell, PushPc, PopPc, size_mod, make}
use limb_worker.ThreadPool.BoundedQueue.Fifo.{start, make-eq-start}
use limb_worker.ThreadPool.BoundedQueue.Threads.{Thread, Action, run_system, begin}
use limb_worker.ThreadPool.BoundedQueue.Threads.Views.{writer, reader}
use limb_worker.ThreadPool.BoundedQueue.Threads.Coherent.{Coherent, Gone, Elsewhere, apart}
use limb_worker.ThreadPool.BoundedQueue.Threads.Cells.{cells}
use limb_worker.ThreadPool.BoundedQueue.Threads.Sound.{Sound}
use limb_worker.ThreadPool.BoundedQueue.Threads.Runs.{run_system-Sound, begin-Sound}

module _ {ℓ} {A : Type ℓ} where
  -- Each entry that left is the one that entered at its position, and no position is twice in the list.
  pub Delivered : ℕ → List A → List (ℕ × Option A) → Type ℓ
  Delivered deq entered [] = Unit {ℓ}
  Delivered deq entered ((p, out) ∷ rest) =
      (p < deq) × (get_elem? entered p ≡ out) × Elsewhere p rest × Delivered deq entered rest

  -- The position whose payload the thread accesses.
  abbrev pub accesses : Thread A → Option ℕ
  accesses (Thread.pushing (PushPc.write pos a)) = some pos
  accesses (Thread.popping (PopPc.read pos)) = some pos
  accesses t = none

  pub Gone-Delivered :
      (c deq : ℕ) (cell : ℕ → Cell A) (entered : List A) (left : List (ℕ × Option A))
      → Gone c deq cell entered left
      → Delivered deq entered left
  unfolding Delivered
  Gone-Delivered c deq cell entered [] gone = tt
  Gone-Delivered c deq cell entered ((p, out) ∷ rest) (first, other, gone) =
      (first.behind, first.entry, other, Gone-Delivered c deq cell entered rest gone)

  accesses-holder :
      (t : Thread A) {p : ℕ} → accesses t ≡ some p → (writer t ≡ some p) ⊎ (reader t ≡ some p)
  accesses-holder Thread.idle e = absurd (cc)
  accesses-holder (Thread.pushing (PushPc.load_pos a)) e = absurd (cc)
  accesses-holder (Thread.pushing (PushPc.load_sequence pos a)) e = absurd (cc)
  accesses-holder (Thread.pushing (PushPc.exchange pos a)) e = absurd (cc)
  accesses-holder (Thread.pushing (PushPc.write pos a)) e = inl e
  accesses-holder (Thread.pushing (PushPc.publish pos)) e = absurd (cc)
  accesses-holder (Thread.pushing (PushPc.returned ok)) e = absurd (cc)
  accesses-holder (Thread.pushing PushPc.fault) e = absurd (cc)
  accesses-holder (Thread.popping PopPc.load_pos) e = absurd (cc)
  accesses-holder (Thread.popping (PopPc.load_sequence pos)) e = absurd (cc)
  accesses-holder (Thread.popping (PopPc.exchange pos)) e = absurd (cc)
  accesses-holder (Thread.popping (PopPc.read pos)) e = inr e
  accesses-holder (Thread.popping (PopPc.release pos out)) e = absurd (cc)
  accesses-holder (Thread.popping (PopPc.returned out ok)) e = absurd (cc)
  accesses-holder (Thread.popping PopPc.fault) e = absurd (cc)

module _ {ℓ} {A : Type ℓ} {c enq deq : ℕ} {cell : ℕ → Cell A} {threads : ℕ → Thread A}
    {entered : List A} {left : List (ℕ × Option A)} (large : 2 ≤ c)
    (v : Coherent c enq deq cell threads entered left) where
  open v use {ring, fills, empties, one_writer, one_reader}

  sequence_eq : (p r : ℕ) → p % c ≡ r % c → (cell p).sequence ≡ (cell r).sequence
  sequence_eq p r e = ap (λ x. x.sequence) (ring p r e)

  writer-reader :
      (i j p r : ℕ) → writer (threads i) ≡ some p → reader (threads j) ≡ some r → p % c ≢ r % c
  writer-reader i j p r w d e =
      let next : p ≡ r + 1 = omega (arith, (fills i p w).1, (empties j r d).1, sequence_eq p r e) in
      apart c r large (ap (λ t. t % c) (sym next) ∙ e)

  -- Two threads are never at the payload of one cell.
  pub accesses-apart :
      (i j p r : ℕ)
      → i ≢ j
      → accesses (threads i) ≡ some p
      → accesses (threads j) ≡ some r
      → p % c ≢ r % c
  accesses-apart i j p r other e d same = elim (accesses-holder (threads i) e) [
    | inl w ↦ elim (accesses-holder (threads j) d) [
      | inl w' ↦
          let here : r ≡ p =
            omega (arith, (fills i p w).1, (fills j r w').1, sequence_eq p r same) in
          other (one_writer i j p w (w' ∙ ap some here))
      | inr d' ↦ writer-reader i j p r w d' same
    ]
    | inr d' ↦ elim (accesses-holder (threads j) d) [
      | inl w ↦ writer-reader j i r p w d' (sym same)
      | inr d'' ↦
          let here : r ≡ p =
            omega (arith, (empties i p d').1, (empties j r d'').1, sequence_eq p r same) in
          other (one_reader i j p d' (d'' ∙ ap some here))
    ]
  ]

module _ {ℓ} {A : Type ℓ} (k : ℕ) (actions : List (Action A)) (p : 1 ≤ k) (h : k ≤ 63)
    (few : length actions + 2 ^ k < size_mod) where
  pub reached :
      (q : Queue A)
      → make (2 ^ k) ≡ some q
      → Sound k (length actions) (run_system actions (begin q))
  reached q e =
      let same : start A k ≡ q = cc (e, make-eq-start A k p h) in
      subst (λ q. Sound k (length actions) (run_system actions (begin q))) same
        (subst (λ n. Sound k n (run_system actions (begin (start A k)))) (omega arith)
          (run_system-Sound actions k 0 (begin (start A k)) (begin-Sound k p h) (omega arith)))

  -- Fewer than 2 ^ 64 - 2 ^ k steps of any number of threads, in any order, that push to and pop from
  -- a new queue of 2 ^ k cells, k from 1 to 63: each `pop` that succeeds has a position of its own and
  -- the entry that entered there, and at most 2 ^ k positions are taken and not yet left.
  pub run_system-delivers :
      (q : Queue A)
      → make (2 ^ k) ≡ some q
      → (let s = run_system actions (begin q) in
          (s.queue.dequeue_pos ≤ s.queue.enqueue_pos)
          × (s.queue.enqueue_pos ≤ s.queue.dequeue_pos + 2 ^ k)
          × (length s.entered ≡ s.queue.enqueue_pos)
          × Delivered s.queue.dequeue_pos s.entered s.left)
  run_system-delivers q e =
      let s = run_system actions (begin q) in
      let v = (reached q e).coherent in
      (
        v.ordered,
        v.room,
        v.counted,
        Gone-Delivered (2 ^ k) s.queue.dequeue_pos (cells k s.queue) s.entered s.left v.gone,
      )

  -- After fewer than 2 ^ 64 - 2 ^ k steps of any number of threads, in any order, on a new queue of
  -- 2 ^ k cells, k from 1 to 63: two threads that are about to access a payload stand at positions
  -- whose cells are distinct.
  pub run_system-apart :
      (q : Queue A) (i j a b : ℕ)
      → make (2 ^ k) ≡ some q
      → i ≢ j
      → accesses ((run_system actions (begin q)).threads i) ≡ some a
      → accesses ((run_system actions (begin q)).threads j) ≡ some b
      → a % 2 ^ k ≢ b % 2 ^ k
  run_system-apart q i j a b e = accesses-apart (reached q e).large (reached q e).coherent i j a b
