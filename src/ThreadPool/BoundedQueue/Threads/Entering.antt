-- ===== src/ThreadPool/BoundedQueue/Threads/Entering.antt =====
-- limb-queue.hpp: the steps of `push` keep the invariant, whatever the other threads do.
use limb_worker.Prelude.{
  ℕ, ◌+◌, ◌≤◌, ◌<◌, ◌≡◌, ◌⊎◌, inl, inr, sym, ap, subst, ◌∙◌, Option, some, List, [], ◌∷◌, ◌++◌,
  arith, length, get_elem?, length-append, get_elem?-append, get_elem?-last,
}
use native.Mathlib.Decide.{dec_lt}
use limb_worker.ThreadPool.BoundedQueue.{Cell, PushPc}
use limb_worker.ThreadPool.BoundedQueue.Threads.{Thread, update}
use limb_worker.ThreadPool.BoundedQueue.Threads.Views.{
  writer, reader, seen, loaded, carried, filled, faulted, each, Unique-update, update-same,
  update-kept, update-own,
}
use limb_worker.ThreadPool.BoundedQueue.Threads.Coherent.{
  Coherent, Gone-grows, Accounted-same, round,
}

module _ {ℓ} {A : Type ℓ} {c enq deq : ℕ} {cell : ℕ → Cell A} {threads : ℕ → Thread A}
    {entered : List A} {left : List (ℕ × Option A)} (large : 2 ≤ c)
    (v : Coherent c enq deq cell threads entered left) (i : ℕ) where
  open v use {
    ordered, room, counted, low, ring, saw, known, fills, empties, carries, shows, sound,
    one_writer, one_reader, busy, free, accounted, gone,
  }

  -- The cell of the next position is behind it, or free.
  pub next_cell :
      (((cell enq).sequence < enq) × (enq ≤ (cell enq).sequence + c))
      ⊎ (((cell enq).sequence ≡ enq) × (enq < deq + c))
  next_cell = elim (dec_lt enq (deq + c)) [
    | yes below ↦ elim (free enq (omega arith) below) [
      | inl e ↦ inr (e, below)
      | inr (j, r, behind, e) ↦
          let same : (cell enq).sequence ≡ (cell r).sequence =
            ap (λ p. (cell p).sequence) (sym behind) ∙ ap (λ x. x.sequence) (round v r) in
          inl (
            omega (arith, same, (empties j r e).1, behind),
            omega (arith, same, (empties j r e).1, behind),
          )
    ]
    | no above ↦
        let wrapped : enq ≡ deq + c = omega (arith, room, above) in
        let same : (cell enq).sequence ≡ (cell deq).sequence =
          ap (λ p. (cell p).sequence) wrapped ∙ ap (λ x. x.sequence) (round v deq) in
        elim (busy deq (omega arith) (omega (arith, wrapped))) [
          | inl (full, entry) ↦
              inl (omega (arith, full, same, wrapped), omega (arith, full, same, wrapped))
          | inr (j, e) ↦ inl (
            omega (arith, (fills j deq e).1, same, wrapped),
            omega (arith, (fills j deq e).1, same, wrapped),
          )
        ]
  ]

  -- The exchange of `push` that succeeds.
  pub enter-Coherent :
      (pos : ℕ) (a : A)
      → threads i ≡ Thread.pushing (PushPc.exchange pos a)
      → pos ≡ enq
      → Coherent c
          (enq + 1)
          deq
          cell
          (update threads i (Thread.pushing (PushPc.write pos a)))
          (entered ++ a ∷ [])
          left
  enter-Coherent pos a here now =
      let t : Thread A = Thread.pushing (PushPc.write pos a) in
      let there = saw i (pos, pos) (ap seen here) in
      let at_next : (cell pos).sequence ≡ (cell enq).sequence = ap (λ p. (cell p).sequence) now in
      let (empty, below) = elim next_cell as (λ x. ((cell enq).sequence ≡ enq) × (enq < deq + c)) [
        | inl behind ↦ absurd (omega (arith, behind, there, now, at_next))
        | inr found ↦ found
      ] in
      let kept =
        λ (p : ℕ) (h : p < enq). get_elem?-append entered (a ∷ []) p (omega (arith, h, counted)) in
      let count : length (entered ++ a ∷ []) ≡ enq + 1 =
        omega (arith, length-append entered (a ∷ []), counted) in
      let last : get_elem? (entered ++ a ∷ []) pos ≡ some a =
        ap (λ p. get_elem? (entered ++ a ∷ []) p) (now ∙ sym counted) ∙ get_elem?-last entered a in
      let mine : (p : ℕ) → writer t ≡ some p → p ≡ enq = λ p e. ground (arith, e, now) in
      record {
        ordered = omega arith;
        room = omega (arith, below);
        counted = count;
        low = low;
        ring = ring;
        saw = each seen threads i t _ (λ u e. absurd (cc)) (λ j u other e. saw j u e);
        known =
            each loaded threads i t _ (λ p e. absurd (cc))
              (λ j p other e. omega (arith, known j p e));
        fills =
            each writer threads i t _
              (λ p e. (
                omega (arith, mine p e),
                ap (λ q. (cell q).sequence) (mine p e) ∙ empty ∙ sym (mine p e),
              ))
              (λ j p other e. (omega (arith, (fills j p e).0), (fills j p e).1));
        empties = each reader threads i t _ (λ p e. absurd (cc)) (λ j p other e. empties j p e);
        carries =
            each carried threads i t _
              (λ u e.
                let same : u ≡ (pos, some a) = cc in
                subst
                  (λ (u : ℕ × Option A).
                    (u.0 < enq + 1) × (get_elem? (entered ++ a ∷ []) u.0 ≡ u.1))
                  (sym same) (omega (arith, now), last))
              (λ j u other e.
                (omega (arith, (carries j u e).0), kept u.0 (carries j u e).0 ∙ (carries j u e).1));
        shows =
            each filled threads i t _ (λ p e. absurd (cc))
              (λ j p other e.
                (omega (arith, (shows j p e).0), (shows j p e).1 ∙ sym (kept p (shows j p e).0)));
        sound = each faulted threads i t _ (λ u e. absurd (cc)) (λ j u other e. sound j u e);
        one_writer =
            Unique-update writer threads i t one_writer
              (λ p j e other d. absurd (omega (arith, mine p e, (fills j p d).0)));
        one_reader = Unique-update reader threads i t one_reader (λ p j e other d. absurd (cc));
        busy = λ p above before. elim (dec_lt p enq) [
          | yes earlier ↦ elim (busy p above earlier) [
            | inl (full, entry) ↦ inl (full, entry ∙ sym (kept p earlier))
            | inr (j, e) ↦ inr (
              j,
              update-kept writer threads i t j p e
                  (λ same. absurd (cc (ap (λ l. writer (threads l)) same, ap writer here, e))),
            )
          ]
          | no later ↦
              let same : p ≡ pos = omega (arith, later, before, now) in
              inr (i, update-own writer threads i t ∙ ap some (sym same))
        ];
        free = λ p above before. elim (free p (omega (arith, above)) before) [
          | inl e ↦ inl e
          | inr (j, r, behind, e) ↦
              inr (j, r, behind, update-same reader threads i t j r (sym (ap reader here)) e)
        ];
        accounted = Accounted-same deq threads left i t (sym (ap reader here)) accounted;
        gone =
            Gone-grows c deq deq cell cell entered (entered ++ a ∷ []) left (omega arith)
              (λ p. omega arith) (λ p h. kept p (omega (arith, h, ordered))) gone;
      }
