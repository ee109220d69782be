-- ===== src/ThreadPool/BoundedQueue/Threads/Emptying.antt =====
-- limb-queue.hpp: `pop` takes the entry from the cell of its position; the invariant stays.

use limb_worker.Prelude.{
  ℕ, ◌+◌, ◌%◌, ◌≤◌, ◌<◌, ◌≡◌, ◌≢◌, inl, inr, refl, sym, ap, subst, ◌∙◌, Option, none, some, List,
  arith, get_elem?,
}
use limb_worker.ThreadPool.BoundedQueue.{Cell, PopPc}
use limb_worker.ThreadPool.BoundedQueue.Threads.{Thread, update}
use limb_worker.ThreadPool.BoundedQueue.Threads.Views.{
  writer, reader, seen, loaded, carried, filled, faulted, filled-owner, each, Unique-update,
  update-same,
}
use limb_worker.ThreadPool.BoundedQueue.Threads.Coherent.{
  Coherent, Gone-grows, Accounted-same, apart, put, put-cases, put-ring,
}

module _ {ℓ} {A : Type ℓ} {c enq deq : ℕ} {cell : ℕ → Cell A} {threads : ℕ → Thread A}
    {entered : List A} {left : List (ℕ × Option A)} (large : 2 ≤ c)
    (v : Coherent c enq deq cell threads entered left) (i pos : ℕ)
    (owner : reader (threads i) ≡ some pos) where
  open v use {
    ordered, room, counted, low, ring, saw, known, fills, empties, carries, shows, sound,
    one_writer, one_reader, busy, free, accounted, gone,
  }

  -- The cell of the position is in no other use.
  pub cell_at_pos : (r : ℕ) → r % c ≡ pos % c → (cell r).sequence ≡ pos + 1
  cell_at_pos r same = ap (λ x. x.sequence) (ring r pos same) ∙ (empties i pos owner).1

  pub not_free : (r : ℕ) → r % c ≡ pos % c → (cell r).sequence ≢ r
  not_free r same empty =
      let next : pos + 1 ≡ r = sym (cell_at_pos r same) ∙ empty in
      apart c pos large (ap (λ p. p % c) next ∙ same)

  pub full_here : (r : ℕ) → r % c ≡ pos % c → (cell r).sequence ≡ r + 1 → r ≡ pos
  full_here r same full = omega (arith, cell_at_pos r same, full)

  pub other_writer : (j r : ℕ) → writer (threads j) ≡ some r → r % c ≢ pos % c
  other_writer j r e same = not_free r same (fills j r e).1

  pub other_reader : (j r : ℕ) → reader (threads j) ≡ some r → j ≢ i → r % c ≢ pos % c
  other_reader j r e other same =
      let here = full_here r same (empties j r e).1 in
      other (one_reader j i r e (owner ∙ ap some (sym here)))

  pub other_filled : (j r : ℕ) → filled (threads j) ≡ some r → j ≢ i → r % c ≢ pos % c
  other_filled j r e other = elim (filled-owner (threads j) e) [
    | inl w ↦ other_writer j r w
    | inr w ↦ other_reader j r w other
  ]

  pub put-elsewhere : (x : Cell A) (r : ℕ) → r % c ≢ pos % c → put c cell pos x r ≡ cell r
  put-elsewhere x r other = elim (put-cases c cell pos x r) [
    | inl (same, e) ↦ absurd (other same)
    | inr (other', e) ↦ e
  ]

  -- A position that no thread has taken is not this one's.
  pub busy_elsewhere : (r : ℕ) → deq ≤ r → (cell r).sequence ≡ r + 1 → r % c ≢ pos % c
  busy_elsewhere r above full same =
      omega (arith, above, full_here r same full, (empties i pos owner).0)

  -- `data = std::move(cell->data)`.
  pub read-Coherent :
      threads i ≡ Thread.popping (PopPc.read pos)
      → Coherent c enq deq
          (put c cell pos (record (cell pos) { payload = none }))
          (update threads i (Thread.popping (PopPc.release pos (cell pos).payload)))
          entered
          left
  read-Coherent here =
      let t : Thread A = Thread.popping (PopPc.release pos (cell pos).payload) in
      let x : Cell A = record (cell pos) { payload = none } in
      let shown = shows i pos (ap filled here) in
      let sequences : (r : ℕ) → (put c cell pos x r).sequence ≡ (cell r).sequence = λ r.
        elim (put-cases c cell pos x r) [
          | inl (same, e) ↦ ap (λ y. y.sequence) e ∙ ap (λ y. y.sequence) (sym (ring r pos same))
          | inr (other, e) ↦ ap (λ y. y.sequence) e
        ] in
      record {
        ordered = ordered;
        room = room;
        counted = counted;
        low = λ p. omega (arith, low p, sequences p);
        ring = put-ring c cell pos x ring;
        saw =
            each seen threads i t _ (λ u e. absurd (cc))
              (λ j u other e. omega (arith, saw j u e, sequences u.0));
        known = each loaded threads i t _ (λ p e. absurd (cc)) (λ j p other e. known j p e);
        fills =
            each writer threads i t _ (λ p e. absurd (cc))
              (λ j p other e. ((fills j p e).0, sequences p ∙ (fills j p e).1));
        empties =
            each reader threads i t _
              (λ p e. ((empties i p (owner ∙ e)).0, sequences p ∙ (empties i p (owner ∙ e)).1))
              (λ j p other e. ((empties j p e).0, sequences p ∙ (empties j p e).1));
        carries =
            each carried threads i t _
              (λ u e.
                let same : u ≡ (pos, (cell pos).payload) = cc in
                subst (λ (u : ℕ × Option A). (u.0 < enq) × (get_elem? entered u.0 ≡ u.1)) (sym same)
                  (shown.0, sym shown.1))
              (λ j u other e. carries j u e);
        shows =
            each filled threads i t _ (λ p e. absurd (cc))
              (λ j p other e. (
                (shows j p e).0,
                ap (λ y. y.payload) (put-elsewhere x p (other_filled j p e other))
                    ∙ (shows j p e).1,
              ));
        sound = each faulted threads i t _ (λ u e. absurd (cc)) (λ j u other e. sound j u e);
        one_writer = Unique-update writer threads i t one_writer (λ p j e other d. absurd (cc));
        one_reader =
            Unique-update reader threads i t one_reader
              (λ p j e other d. other (one_reader j i p d (owner ∙ e)));
        busy = λ p above below. elim (busy p above below) [
          | inl (full, entry) ↦ inl (
            sequences p ∙ full,
            ap (λ y. y.payload) (put-elsewhere x p (busy_elsewhere p above full)) ∙ entry,
          )
          | inr (j, e) ↦ inr (j, update-same writer threads i t j p (sym (ap writer here)) e)
        ];
        free = λ p above below. elim (free p above below) [
          | inl e ↦ inl (sequences p ∙ e)
          | inr (j, r, behind, e) ↦
              inr (j, r, behind, update-same reader threads i t j r (sym owner) e)
        ];
        accounted = Accounted-same deq threads left i t (sym owner) accounted;
        gone =
            Gone-grows c deq deq cell (put c cell pos x) entered entered left (omega arith)
              (λ p. omega (arith, sequences p)) (λ p h. refl) gone;
      }
