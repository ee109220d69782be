-- ===== src/ThreadPool/BoundedQueue/Threads/Filling.antt =====
-- limb-queue.hpp: `push` writes its cell and publishes it; the invariant stays.
use native.Mathlib.Decide.{ℕ_discrete}
use limb_worker.Prelude.{
  ℕ, ◌+◌, ◌%◌, ◌≤◌, ◌<◌, ◌≡◌, ◌≢◌, inl, inr, refl, sym, ap, subst, ◌∙◌, true, Option, some, List,
  arith, get_elem?,
}
use limb_worker.ThreadPool.BoundedQueue.{Cell, PushPc}
use limb_worker.ThreadPool.BoundedQueue.Threads.{Thread, update}
use limb_worker.ThreadPool.BoundedQueue.Threads.Views.{
  writer, reader, seen, loaded, carried, filled, faulted, filled-owner, each, Unique-update,
  update-same, update-kept,
}
use limb_worker.ThreadPool.BoundedQueue.Threads.Coherent.{
  Coherent, Gone-grows, Accounted-same, apart, put, put-cases, put-ring,
}

module _ {ℓ} {A : Type ℓ} {c enq deq : ℕ} {cell : ℕ → Cell A} {threads : ℕ → Thread A}
    {entered : List A} {left : List (ℕ × Option A)} (large : 2 ≤ c)
    (v : Coherent c enq deq cell threads entered left) (i pos : ℕ)
    (owner : writer (threads i) ≡ some pos) where
  open v use {
    ordered, room, counted, low, ring, saw, known, fills, empties, carries, shows, sound,
    one_writer, one_reader, busy, free, accounted, gone,
  }

  -- The cell of the position is in no other use.
  cell_at_pos : (r : ℕ) → r % c ≡ pos % c → (cell r).sequence ≡ pos
  cell_at_pos r same = ap (λ x. x.sequence) (ring r pos same) ∙ (fills i pos owner).1

  not_full : (r : ℕ) → r % c ≡ pos % c → (cell r).sequence ≢ r + 1
  not_full r same full =
      let next : pos ≡ r + 1 = sym (cell_at_pos r same) ∙ full in
      apart c r large (ap (λ p. p % c) (sym next) ∙ sym same)

  other_writer : (j r : ℕ) → writer (threads j) ≡ some r → j ≢ i → r % c ≢ pos % c
  other_writer j r e other same =
      let here : r ≡ pos = sym (fills j r e).1 ∙ cell_at_pos r same in
      other (one_writer j i r e (owner ∙ ap some (sym here)))

  other_reader : (j r : ℕ) → reader (threads j) ≡ some r → r % c ≢ pos % c
  other_reader j r e same = not_full r same (empties j r e).1

  other_filled : (j r : ℕ) → filled (threads j) ≡ some r → j ≢ i → r % c ≢ pos % c
  other_filled j r e other = elim (filled-owner (threads j) e) [
    | inl w ↦ other_writer j r w other
    | inr w ↦ other_reader j r w
  ]

  put-elsewhere : (x : Cell A) (r : ℕ) → r % c ≢ pos % c → put c cell pos x r ≡ cell r
  put-elsewhere x r other = elim (put-cases c cell pos x r) [
    | inl (same, e) ↦ absurd (other same)
    | inr (other', e) ↦ e
  ]

  put-here : (x : Cell A) → put c cell pos x pos ≡ x
  put-here x = elim (put-cases c cell pos x pos) [
    | inl (same, e) ↦ e
    | inr (other, e) ↦ absurd (other refl)
  ]

  -- `cell->data = ...`.
  pub write-Coherent :
      (a : A)
      → threads i ≡ Thread.pushing (PushPc.write pos a)
      → Coherent c enq deq
          (put c cell pos (record (cell pos) { payload = some a }))
          (update threads i (Thread.pushing (PushPc.publish pos)))
          entered
          left
  write-Coherent a here =
      let t : Thread A = Thread.pushing (PushPc.publish pos) in
      let x : Cell A = record (cell pos) { payload = some a } in
      let sequences : (r : ℕ) → (put c cell pos x r).sequence ≡ (cell r).sequence = λ r.
        elim (put-cases c cell pos x r) [
          | inl (same, e) ↦ ap (λ y. y.sequence) e ∙ ap (λ y. y.sequence) (sym (ring r pos same))
          | inr (other, e) ↦ ap (λ y. y.sequence) e
        ] in
      record {
        ordered = ordered;
        room = room;
        counted = counted;
        low = λ p. omega (arith, low p, sequences p);
        ring = put-ring c cell pos x ring;
        saw =
            each seen threads i t _ (λ u e. absurd (cc))
              (λ j u other e. omega (arith, saw j u e, sequences u.0));
        known = each loaded threads i t _ (λ p e. absurd (cc)) (λ j p other e. known j p e);
        fills =
            each writer threads i t _
              (λ p e. ((fills i p (owner ∙ e)).0, sequences p ∙ (fills i p (owner ∙ e)).1))
              (λ j p other e. ((fills j p e).0, sequences p ∙ (fills j p e).1));
        empties =
            each reader threads i t _ (λ p e. absurd (cc))
              (λ j p other e. ((empties j p e).0, sequences p ∙ (empties j p e).1));
        carries = each carried threads i t _ (λ u e. absurd (cc)) (λ j u other e. carries j u e);
        shows =
            each filled threads i t _
              (λ p e.
                let same : p ≡ pos = cc in
                subst (λ q. (q < enq) × ((put c cell pos x q).payload ≡ get_elem? entered q))
                  (sym same)
                  (
                    (fills i pos owner).0,
                    ap (λ y. y.payload) (put-here x)
                        ∙ sym (carries i (pos, some a) (ap carried here)).1,
                  ))
              (λ j p other e. (
                (shows j p e).0,
                ap (λ y. y.payload) (put-elsewhere x p (other_filled j p e other))
                    ∙ (shows j p e).1,
              ));
        sound = each faulted threads i t _ (λ u e. absurd (cc)) (λ j u other e. sound j u e);
        one_writer =
            Unique-update writer threads i t one_writer
              (λ p j e other d. other (one_writer j i p d (owner ∙ e)));
        one_reader = Unique-update reader threads i t one_reader (λ p j e other d. absurd (cc));
        busy = λ p above below. elim (busy p above below) [
          | inl (full, entry) ↦ inl (
            sequences p ∙ full,
            ap (λ y. y.payload) (put-elsewhere x p (λ same. not_full p same full)) ∙ entry,
          )
          | inr (j, e) ↦ inr (j, update-same writer threads i t j p (sym owner) e)
        ];
        free = λ p above below. elim (free p above below) [
          | inl e ↦ inl (sequences p ∙ e)
          | inr (j, r, behind, e) ↦
              inr (j, r, behind, update-same reader threads i t j r (sym (ap reader here)) e)
        ];
        accounted = Accounted-same deq threads left i t (sym (ap reader here)) accounted;
        gone =
            Gone-grows c deq deq cell (put c cell pos x) entered entered left (omega arith)
              (λ p. omega (arith, sequences p)) (λ p h. refl) gone;
      }

  -- `cell->sequence.store(pos + 1)`.
  pub publish-Coherent :
      threads i ≡ Thread.pushing (PushPc.publish pos)
      → Coherent c enq deq
          (put c cell pos (record (cell pos) { sequence = pos + 1 }))
          (update threads i (Thread.pushing (PushPc.returned true)))
          entered
          left
  publish-Coherent here =
      let t : Thread A = Thread.pushing (PushPc.returned true) in
      let x : Cell A = record (cell pos) { sequence = pos + 1 } in
      let mine = fills i pos owner in
      let grow : (r : ℕ) → (cell r).sequence ≤ (put c cell pos x r).sequence = λ r.
        elim (put-cases c cell pos x r) [
          | inl (same, e) ↦ omega (arith, cell_at_pos r same, ap (λ y. y.sequence) e)
          | inr (other, e) ↦ omega (arith, ap (λ y. y.sequence) e)
        ] in
      let kept : (r : ℕ) → r % c ≢ pos % c → (put c cell pos x r).sequence ≡ (cell r).sequence =
        λ r other. ap (λ y. y.sequence) (put-elsewhere x r other) in
      record {
        ordered = ordered;
        room = room;
        counted = counted;
        low = λ p. elim (put-cases c cell pos x p) [
          | inl (same, e) ↦ omega (arith, ap (λ y. y.sequence) e, mine.0, room)
          | inr (other, e) ↦ omega (arith, ap (λ y. y.sequence) e, low p)
        ];
        ring = put-ring c cell pos x ring;
        saw =
            each seen threads i t _ (λ u e. absurd (cc))
              (λ j u other e. omega (arith, saw j u e, grow u.0));
        known = each loaded threads i t _ (λ p e. absurd (cc)) (λ j p other e. known j p e);
        fills =
            each writer threads i t _ (λ p e. absurd (cc))
              (λ j p other e.
                ((fills j p e).0, kept p (other_writer j p e other) ∙ (fills j p e).1));
        empties =
            each reader threads i t _ (λ p e. absurd (cc))
              (λ j p other e. ((empties j p e).0, kept p (other_reader j p e) ∙ (empties j p e).1));
        carries = each carried threads i t _ (λ u e. absurd (cc)) (λ j u other e. carries j u e);
        shows =
            each filled threads i t _ (λ p e. absurd (cc))
              (λ j p other e. (
                (shows j p e).0,
                ap (λ y. y.payload) (put-elsewhere x p (other_filled j p e other))
                    ∙ (shows j p e).1,
              ));
        sound = each faulted threads i t _ (λ u e. absurd (cc)) (λ j u other e. sound j u e);
        one_writer = Unique-update writer threads i t one_writer (λ p j e other d. absurd (cc));
        one_reader = Unique-update reader threads i t one_reader (λ p j e other d. absurd (cc));
        busy = λ p above below. elim (busy p above below) [
          | inl (full, entry) ↦
              let apart_here = λ (same : p % c ≡ pos % c). not_full p same full in
              inl (
                kept p apart_here ∙ full,
                ap (λ y. y.payload) (put-elsewhere x p apart_here) ∙ entry,
              )
          | inr (j, e) ↦ elim (ℕ_discrete j i) [
            | yes same ↦
                let at_pos : some p ≡ some pos =
                  sym e ∙ ap (λ l. writer (threads l)) same ∙ owner in
                let there : p ≡ pos = cc in
                inl (
                  subst (λ q. (put c cell pos x q).sequence ≡ q + 1) (sym there)
                      (ap (λ y. y.sequence) (put-here x)),
                  subst (λ q. (put c cell pos x q).payload ≡ get_elem? entered q) (sym there)
                      (ap (λ y. y.payload) (put-here x) ∙ (shows i pos (ap filled here)).1),
                )
            | no other ↦ inr (j, update-kept writer threads i t j p e other)
          ]
        ];
        free = λ p above below. elim (free p above below) [
          | inl e ↦ inl (kept p (λ same. omega (arith, cell_at_pos p same, e, mine.0, above)) ∙ e)
          | inr (j, r, behind, e) ↦
              inr (j, r, behind, update-same reader threads i t j r (sym (ap reader here)) e)
        ];
        accounted = Accounted-same deq threads left i t (sym (ap reader here)) accounted;
        gone =
            Gone-grows c deq deq cell (put c cell pos x) entered entered left (omega arith) grow
              (λ p h. refl) gone;
      }
