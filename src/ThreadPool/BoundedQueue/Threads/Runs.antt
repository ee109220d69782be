-- ===== src/ThreadPool/BoundedQueue/Threads/Runs.antt =====
-- limb-queue.hpp: what holds after any interleaving of the steps of any number of threads.
use native.Mathlib.Nat.{mod-lt, mod-eq_of_lt}
use limb_worker.Prelude.{
  ℕ, ◌+◌, ◌%◌, ◌^◌, ◌≤◌, ◌<◌, ◌≡◌, inl, inr, refl, sym, ap, subst, ◌∙◌, Bool, true, Bool-cases,
  none, some, List, [], ◌∷◌, arith, length,
}
use limb_worker.Prelude.Bits.{pow-pos}
use limb_worker.ThreadPool.BoundedQueue.{PushPc, PopPc, size_mod}
use limb_worker.ThreadPool.BoundedQueue.Words.{cap_bounds}
use limb_worker.ThreadPool.BoundedQueue.Fifo.{start, length-fresh_cells, get_elem?-fresh_cells}
use limb_worker.ThreadPool.BoundedQueue.Threads.{
  Thread, System, Action, is_done, run_at, act, run_system, begin,
}
use limb_worker.ThreadPool.BoundedQueue.Threads.Views.{writer, reader}
use limb_worker.ThreadPool.BoundedQueue.Threads.Cells.{cells, no_cell, get_elem?-get_or}
use limb_worker.ThreadPool.BoundedQueue.Threads.Sound.{Sound, look-Sound}
use limb_worker.ThreadPool.BoundedQueue.Threads.Pushing.{push-Sound}
use limb_worker.ThreadPool.BoundedQueue.Threads.Popping.{pop-Sound}

module _ {ℓ} {A : Type ℓ} where
  some_injective : {x y : A} → some x ≡ some y → x ≡ y
  some_injective e = cc

module _ {ℓ} {A : Type ℓ} where
  cells-start :
      (k p : ℕ) → cells {A = A} k (start A k) p ≡ record { sequence = p % 2 ^ k; payload = none }
  unfolding cells start
  cells-start k p =
      let inside : p % 2 ^ k < 2 ^ k = mod-lt p (pow-pos k) in
      some_injective (
        sym (
          get_elem?-get_or (start A k).buffer (p % 2 ^ k) no_cell
            (omega (arith, inside, length-fresh_cells A (2 ^ k) 0)))
        ∙ get_elem?-fresh_cells A (2 ^ k) 0 (p % 2 ^ k) inside)
      ∙ ap (λ t. record { sequence = t; payload = none }) (omega arith)

  -- A thread in no call holds on to no cell.
  pub done-free : (t : Thread A) → is_done t ≡ true → (writer t ≡ none) × (reader t ≡ none)
  done-free Thread.idle e = (refl, refl)
  done-free (Thread.pushing (PushPc.load_pos a)) e = absurd (cc)
  done-free (Thread.pushing (PushPc.load_sequence pos a)) e = absurd (cc)
  done-free (Thread.pushing (PushPc.exchange pos a)) e = absurd (cc)
  done-free (Thread.pushing (PushPc.write pos a)) e = absurd (cc)
  done-free (Thread.pushing (PushPc.publish pos)) e = absurd (cc)
  done-free (Thread.pushing (PushPc.returned ok)) e = (refl, refl)
  done-free (Thread.pushing PushPc.fault) e = absurd (cc)
  done-free (Thread.popping PopPc.load_pos) e = absurd (cc)
  done-free (Thread.popping (PopPc.load_sequence pos)) e = absurd (cc)
  done-free (Thread.popping (PopPc.exchange pos)) e = absurd (cc)
  done-free (Thread.popping (PopPc.read pos)) e = absurd (cc)
  done-free (Thread.popping (PopPc.release pos out)) e = absurd (cc)
  done-free (Thread.popping (PopPc.returned out ok)) e = (refl, refl)
  done-free (Thread.popping PopPc.fault) e = absurd (cc)

module _ {ℓ} {A : Type ℓ} (k n : ℕ) (s : System A) (v : Sound k n s)
    (few : n + 2 ^ k + 1 < size_mod) where
  later : Sound k (n + 1) s
  later = record {
    large = v.large;
    is_ring = v.is_ring;
    few = omega (arith, v.few);
    coherent = v.coherent;
  }

  run_at-Sound :
      (weak : Bool) (i : ℕ) (t : Thread A) → s.threads i ≡ t → Sound k (n + 1) (run_at weak i t s)
  unfolding run_at
  run_at-Sound weak i Thread.idle here = later
  run_at-Sound weak i (Thread.pushing pc) here = push-Sound k n s v few weak i pc here
  run_at-Sound weak i (Thread.popping pc) here = pop-Sound k n s v few weak i pc here

  pub act-Sound : (a : Action A) → Sound k (n + 1) (act a s)
  unfolding act
  act-Sound (Action.calls_push i a) = elim (Bool-cases (is_done (s.threads i))) [
    | inl done ↦
        let (w, r) = done-free (s.threads i) done in
        rw (done) (
          look-Sound k n s i (Thread.pushing (PushPc.load_pos a)) v (sym w) (sym r)
            (λ u e. absurd (cc)) (λ p e. absurd (cc)) refl refl refl)
    | inr busy ↦ rw (busy) later
  ]
  act-Sound (Action.calls_pop i) = elim (Bool-cases (is_done (s.threads i))) [
    | inl done ↦
        let (w, r) = done-free (s.threads i) done in
        rw (done) (
          look-Sound k n s i (Thread.popping PopPc.load_pos) v (sym w) (sym r) (λ u e. absurd (cc))
            (λ p e. absurd (cc)) refl refl refl)
    | inr busy ↦ rw (busy) later
  ]
  act-Sound (Action.runs i weak) = run_at-Sound weak i (s.threads i) refl

module _ {ℓ} {A : Type ℓ} where
  pub run_system-Sound :
      (actions : List (Action A)) (k n : ℕ) (s : System A)
      → Sound k n s
      → n + length actions + 2 ^ k < size_mod
      → Sound k (n + length actions) (run_system actions s)
  unfolding run_system
  run_system-Sound [] k n s v few = subst (λ m. Sound k m s) (omega arith) v
  run_system-Sound (a ∷ rest) k n s v few =
      subst (λ m. Sound k m (run_system rest (act a s))) (omega arith)
        (run_system-Sound rest k (n + 1) (act a s) (act-Sound k n s v (omega arith) a)
          (omega arith))

  pub begin-Sound : (k : ℕ) → 1 ≤ k → k ≤ 63 → Sound {A = A} k 0 (begin (start A k))
  unfolding begin start
  begin-Sound k p h = record {
    large = (cap_bounds k p h).0;
    is_ring = record { count = length-fresh_cells A (2 ^ k) 0; mask = refl };
    few = omega arith;
    coherent = record {
      ordered = omega arith;
      room = omega arith;
      counted = refl;
      low =
          λ p. omega (arith, ap (λ x. x.sequence) (cells-start {A = A} k p), mod-lt p (pow-pos k));
      ring = λ p r e.
          cells-start {A = A} k p
          ∙ ap (λ t. record { sequence = t; payload = none }) e
          ∙ sym (cells-start k r);
      saw = λ j u e. absurd (cc);
      known = λ j p e. absurd (cc);
      fills = λ j p e. absurd (cc);
      empties = λ j p e. absurd (cc);
      carries = λ j p e. absurd (cc);
      shows = λ j p e. absurd (cc);
      sound = λ j p e. absurd (cc);
      one_writer = λ j l u e d. absurd (cc);
      one_reader = λ j l u e d. absurd (cc);
      busy = λ p above below. absurd (omega arith);
      free = λ p above below.
          inl (ap (λ x. x.sequence) (cells-start {A = A} k p) ∙ mod-eq_of_lt (omega arith));
      accounted = λ p below. absurd (omega arith);
      gone = tt;
    };
  }
