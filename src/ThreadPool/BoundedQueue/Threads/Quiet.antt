-- ===== src/ThreadPool/BoundedQueue/Threads/Quiet.antt =====
-- limb-queue.hpp: the queue once every thread has returned.
use limb_worker.Prelude.{
  ℕ, zero, suc, ◌+◌, ◌-◌, ◌%◌, ◌^◌, ◌≤◌, ◌<◌, ◌≡◌, ◌≢◌, inl, inr, refl, sym, ap, ◌∙◌, true, some,
  List, [], ◌∷◌, arith, length, get_elem?, drop, length-drop,
}
use limb_worker.ThreadPool.BoundedQueue.{Queue, size_mod, make}
use limb_worker.ThreadPool.BoundedQueue.Window.{Holds, get_elem?-lt}
use limb_worker.ThreadPool.BoundedQueue.Fifo.{Call, run, run_fifo, run-Holds}
use limb_worker.ThreadPool.BoundedQueue.Threads.{System, Action, is_done, run_system, begin}
use limb_worker.ThreadPool.BoundedQueue.Threads.Views.{writer, reader}
use limb_worker.ThreadPool.BoundedQueue.Threads.Coherent.{HasLeft}
use limb_worker.ThreadPool.BoundedQueue.Threads.Cells.{cells, get_elem?-cells}
use limb_worker.ThreadPool.BoundedQueue.Threads.Sound.{Sound}
use limb_worker.ThreadPool.BoundedQueue.Threads.Runs.{done-free}
use limb_worker.ThreadPool.BoundedQueue.Threads.Delivery.{reached}

module _ {ℓ} {A : Type ℓ} where
  get_elem?-drop : (n : ℕ) (xs : List A) (i : ℕ) → get_elem? (drop n xs) i ≡ get_elem? xs (n + i)
  get_elem?-drop zero xs i = ap (get_elem? xs) (omega arith)
  get_elem?-drop (suc n) [] i = refl
  get_elem?-drop (suc n) (x ∷ xs) i =
      get_elem?-drop n xs i ∙ ap (get_elem? (x ∷ xs)) {x = suc (n + i)} (omega arith)

module _ {ℓ} {A : Type ℓ} (k n : ℕ) (s : System A) (v : Sound k n s) (one : 1 ≤ k) (small : k ≤ 63)
    (few : n + 2 ^ k < size_mod) (quiet : (i : ℕ) → is_done (s.threads i) ≡ true) where
  open v use {coherent}
  open coherent use {ordered, room, counted, busy, free, accounted}

  abbrev enq : ℕ
  enq = s.queue.enqueue_pos

  abbrev deq : ℕ
  deq = s.queue.dequeue_pos

  no_writer : (p i : ℕ) → writer (s.threads i) ≢ some p
  no_writer p i e = cc ((done-free (s.threads i) (quiet i)).0, e)

  no_reader : (p i : ℕ) → reader (s.threads i) ≢ some p
  no_reader p i e = cc ((done-free (s.threads i) (quiet i)).1, e)

  inside : length (drop deq s.entered) ≡ enq - deq
  inside = length-drop deq s.entered ∙ ap (λ t. t - deq) counted

  full_cell :
      (p : ℕ) (x : A)
      → deq ≤ p
      → p < enq
      → get_elem? s.entered p ≡ some x
      → cells k s.queue p ≡ record { sequence = (p + 1) % size_mod; payload = some x }
  full_cell p x above below e = elim (busy p above below) [
    | inl (full, entry) ↦
        let in_word : (p + 1) % size_mod ≡ p + 1 = omega (arith, below, v.few, few) in
        cc (full, in_word, entry, e)
    | inr (j, w) ↦ absurd (no_writer p j w)
  ]

  empty_cell :
      (p : ℕ)
      → enq ≤ p
      → p < deq + 2 ^ k
      → cells k s.queue p
        ≡ record { sequence = p % size_mod; payload = (cells k s.queue p).payload }
  empty_cell p above below = elim (free p above below) [
    | inl empty ↦
        let in_word : p % size_mod ≡ p = omega (arith, below, ordered, v.few, few) in
        cc (empty, in_word)
    | inr (j, r, behind, w) ↦ absurd (no_reader r j w)
  ]

  full_at :
      (i : ℕ) {x : A}
      → get_elem? (drop deq s.entered) i ≡ some x
      → get_elem? s.queue.buffer ((deq + i) % 2 ^ k)
        ≡ some (record { sequence = (deq + i + 1) % size_mod; payload = some x })
  full_at i {x} e =
      let near : i < length (drop deq s.entered) = get_elem?-lt (drop deq s.entered) i e in
      get_elem?-cells k s.queue (deq + i) v.is_ring
      ∙ ap some (
          full_cell (deq + i) x (omega arith) (omega (arith, near, inside))
            (sym (get_elem?-drop deq s.entered i) ∙ e))

  quiet-Holds : Holds k s.queue (drop deq s.entered)
  quiet-Holds = record {
    large = one;
    small = small;
    cells = v.is_ring.count;
    mask = v.is_ring.mask;
    fits = omega (arith, inside, room);
    in_word = omega (arith, ordered, v.few);
    ends = omega (arith, inside, ordered, v.few, few);
    full = λ i. full_at i;
    free = λ i above below. (
      (cells k s.queue (deq + i)).payload,
      get_elem?-cells k s.queue (deq + i) v.is_ring
          ∙ ap some (empty_cell (deq + i) (omega (arith, above, inside)) (omega (arith, below))),
    );
  }

  -- Every position that `pop` took has left.
  quiet_all_left : (p : ℕ) → p < deq → HasLeft p s.left
  quiet_all_left p below = elim (accounted p below) [
    | inl out ↦ out
    | inr (j, e) ↦ absurd (no_reader p j e)
  ]

module _ {ℓ} {A : Type ℓ} (k : ℕ) (actions : List (Action A)) (p : 1 ≤ k) (h : k ≤ 63)
    (few : length actions + 2 ^ k < size_mod) where
  -- Where each thread has returned after fewer than 2 ^ 64 - 2 ^ k steps on a new queue of 2 ^ k cells,
  -- k from 1 to 63, in any order: each position below the dequeue position was delivered, and calls that
  -- follow one after the other reply as a first-in first-out list of at most 2 ^ k entries that starts
  -- with the entries that entered and were not delivered, in their order. No entry is lost.
  pub run_system-lossless :
      (q : Queue A) (cs : List (Call A))
      → make (2 ^ k) ≡ some q
      → ((i : ℕ) → is_done ((run_system actions (begin q)).threads i) ≡ true)
      → (let s = run_system actions (begin q) in
          ((b : ℕ) → b < s.queue.dequeue_pos → HasLeft b s.left)
          × (run s.queue cs ≡ some (run_fifo (2 ^ k) (drop s.queue.dequeue_pos s.entered) cs)))
  run_system-lossless q cs e quiet =
      let s = run_system actions (begin q) in
      let v = reached k actions p h few q e in
      (
        quiet_all_left k (length actions) s v p h few quiet,
        run-Holds cs (quiet-Holds k (length actions) s v p h few quiet),
      )
