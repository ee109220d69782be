-- ===== src/ThreadPool/BoundedQueue/Threads/Leaving.antt =====
-- limb-queue.hpp: the steps of `pop` that look at the queue and take a position keep the invariant.
use native.Mathlib.Decide.{dec_lt}
use limb_worker.Prelude.{
  ℕ, ◌+◌, ◌≤◌, ◌<◌, ◌≡◌, ◌⊎◌, inl, inr, refl, sym, ap, subst, ◌∙◌, Option, none, some, List, arith,
  get_elem?,
}
use limb_worker.ThreadPool.BoundedQueue.{Cell, PopPc}
use limb_worker.ThreadPool.BoundedQueue.Threads.{Thread, update}
use limb_worker.ThreadPool.BoundedQueue.Threads.Views.{
  writer, reader, seen, loaded, carried, filled, faulted, each, Unique-update, update-same,
  update-kept, update-own,
}
use limb_worker.ThreadPool.BoundedQueue.Threads.Coherent.{Coherent, Gone-grows, round}

module _ {ℓ} {A : Type ℓ} {c enq deq : ℕ} {cell : ℕ → Cell A} {threads : ℕ → Thread A}
    {entered : List A} {left : List (ℕ × Option A)} (large : 2 ≤ c)
    (v : Coherent c enq deq cell threads entered left) (i : ℕ) where
  open v use {
    ordered, room, counted, low, ring, saw, known, fills, empties, carries, shows, sound,
    one_writer, one_reader, busy, free, accounted, gone,
  }

  -- The cell of the first position is behind it, or full.
  pub first_cell :
      (((cell deq).sequence ≤ deq) × (deq + 1 ≤ (cell deq).sequence + c))
      ⊎ ((deq < enq)
          × ((cell deq).sequence ≡ deq + 1)
          × ((cell deq).payload ≡ get_elem? entered deq))
  first_cell = elim (dec_lt deq enq) [
    | yes more ↦ elim (busy deq (omega arith) more) [
      | inl (full, entry) ↦ inr (more, full, entry)
      | inr (j, e) ↦ inl (omega (arith, (fills j deq e).1), omega (arith, (fills j deq e).1, large))
    ]
    | no empty ↦ elim (free deq (omega (arith, empty)) (omega (arith, large))) [
      | inl e ↦ inl (omega (arith, e), omega (arith, e, large))
      | inr (j, r, behind, e) ↦
          let same : (cell deq).sequence ≡ (cell r).sequence =
            ap (λ p. (cell p).sequence) (sym behind) ∙ ap (λ x. x.sequence) (round v r) in
          inl (
            omega (arith, same, (empties j r e).1, behind, large),
            omega (arith, same, (empties j r e).1, behind, large),
          )
    ]
  ]

  -- The exchange of `pop` that succeeds.
  pub leave-Coherent :
      (pos : ℕ)
      → threads i ≡ Thread.popping (PopPc.exchange pos)
      → pos ≡ deq
      → Coherent c enq
          (deq + 1)
          cell
          (update threads i (Thread.popping (PopPc.read pos)))
          entered
          left
  leave-Coherent pos here now =
      let t : Thread A = Thread.popping (PopPc.read pos) in
      let there = saw i (pos, pos + 1) (ap seen here) in
      let at_first : (cell pos).sequence ≡ (cell deq).sequence = ap (λ p. (cell p).sequence) now in
      let (more, full, entry) =
        elim first_cell
          as (λ x.
            (deq < enq)
            × ((cell deq).sequence ≡ deq + 1)
            × ((cell deq).payload ≡ get_elem? entered deq)) [
              | inl behind ↦ absurd (omega (arith, behind, there, now, at_first))
              | inr found ↦ found
            ] in
      let idle : reader (threads i) ≡ none = ap reader here in
      record {
        ordered = omega (arith, more);
        room = omega (arith, room);
        counted = counted;
        low = λ p. omega (arith, low p);
        ring = ring;
        saw = each seen threads i t _ (λ u e. absurd (cc)) (λ j u other e. saw j u e);
        known = each loaded threads i t _ (λ p e. absurd (cc)) (λ j p other e. known j p e);
        fills = each writer threads i t _ (λ p e. absurd (cc)) (λ j p other e. fills j p e);
        empties =
            each reader threads i t _
              (λ p e.
                let same : p ≡ deq = ground (arith, e, now) in
                subst (λ q. (q < deq + 1) × ((cell q).sequence ≡ q + 1)) (sym same)
                  (omega arith, full))
              (λ j p other e. (omega (arith, (empties j p e).0), (empties j p e).1));
        carries = each carried threads i t _ (λ u e. absurd (cc)) (λ j u other e. carries j u e);
        shows =
            each filled threads i t _
              (λ p e.
                let same : p ≡ deq = ground (arith, e, now) in
                subst (λ q. (q < enq) × ((cell q).payload ≡ get_elem? entered q)) (sym same)
                  (more, entry))
              (λ j p other e. shows j p e);
        sound = each faulted threads i t _ (λ u e. absurd (cc)) (λ j u other e. sound j u e);
        one_writer = Unique-update writer threads i t one_writer (λ p j e other d. absurd (cc));
        one_reader = Unique-update reader threads i t one_reader (λ p j e other d.
            let same : p ≡ deq = ground (arith, e, now) in
            absurd (omega (arith, same, (empties j p d).0)));
        busy = λ p above below. elim (busy p (omega (arith, above)) below) [
          | inl found ↦ inl found
          | inr (j, e) ↦ inr (j, update-same writer threads i t j p (sym (ap writer here)) e)
        ];
        free = λ p above below. elim (dec_lt p (deq + c)) [
          | yes before ↦ elim (free p above before) [
            | inl e ↦ inl e
            | inr (j, r, behind, e) ↦ inr (
              j,
              r,
              behind,
              update-kept reader threads i t j r e
                  (λ same. absurd (cc (ap (λ l. reader (threads l)) same, idle, e))),
            )
          ]
          | no last ↦ inr (i, pos, omega (arith, last, below, now), update-own reader threads i t)
        ];
        accounted = λ p below. elim (dec_lt p deq) [
          | yes before ↦ elim (accounted p before) [
            | inl out ↦ inl out
            | inr (j, e) ↦ inr (
              j,
              update-kept reader threads i t j p e
                  (λ same. absurd (cc (ap (λ l. reader (threads l)) same, idle, e))),
            )
          ]
          | no last ↦
              let at_pos : pos ≡ p = omega (arith, now, last, below) in
              inr (i, update-own reader threads i t ∙ ap some at_pos)
        ];
        gone =
            Gone-grows c deq (deq + 1) cell cell entered entered left (omega arith)
              (λ p. omega arith) (λ p h. refl) gone;
      }
