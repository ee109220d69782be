-- ===== src/ThreadPool/BoundedQueue/Threads/Releasing.antt =====
-- limb-queue.hpp: `pop` gives the cell of its position back; the invariant stays.
use native.Mathlib.Nat.{add-mod_right}
use native.Mathlib.Decide.{ℕ_discrete}
use limb_worker.Prelude.{
  ℕ, ◌+◌, ◌%◌, ◌≤◌, ◌≡◌, ◌≢◌, inl, inr, refl, sym, ap, ◌∙◌, true, Option, some, List, [], ◌∷◌,
  arith,
}
use limb_worker.ThreadPool.BoundedQueue.{Cell, PopPc}
use limb_worker.ThreadPool.BoundedQueue.Threads.{Thread, update}
use limb_worker.ThreadPool.BoundedQueue.Threads.Views.{
  writer, reader, seen, loaded, carried, filled, faulted, each, Unique-update, update-same,
  update-kept,
}
use limb_worker.ThreadPool.BoundedQueue.Threads.Coherent.{
  Coherent, Gone, Elsewhere, Gone-grows, put, put-cases, put-ring,
}
use limb_worker.ThreadPool.BoundedQueue.Threads.Emptying.{
  cell_at_pos, not_free, other_writer, other_reader, other_filled, put-elsewhere, busy_elsewhere,
}

module _ {ℓ} {A : Type ℓ} {c enq deq : ℕ} {cell : ℕ → Cell A} {threads : ℕ → Thread A}
    {entered : List A} {left : List (ℕ × Option A)} (large : 2 ≤ c)
    (v : Coherent c enq deq cell threads entered left) (i pos : ℕ)
    (owner : reader (threads i) ≡ some pos) where
  open v use {
    ordered, room, counted, low, ring, saw, known, fills, empties, carries, shows, sound,
    one_writer, one_reader, busy, free, accounted, gone,
  }

  -- The position is not among those that left.
  not_left : (out : List (ℕ × Option A)) → Gone c deq cell entered out → Elsewhere pos out
  not_left [] g = tt
  not_left ((p, entry) ∷ rest) (first, other, g) = (
    λ same. omega (
      arith,
      large,
      first.reused,
      ap (λ q. (cell q).sequence) same,
      (empties i pos owner).1,
      same,
    ),
    not_left rest g,
  )

  -- `cell->sequence.store(pos + m_buffer_mask + 1)`.
  pub release-Coherent :
      (out : Option A)
      → threads i ≡ Thread.popping (PopPc.release pos out)
      → Coherent c enq deq
          (put c cell pos (record (cell pos) { sequence = pos + c }))
          (update threads i (Thread.popping (PopPc.returned out true)))
          entered
          ((pos, out) ∷ left)
  release-Coherent out here =
      let t : Thread A = Thread.popping (PopPc.returned out true) in
      let x : Cell A = record (cell pos) { sequence = pos + c } in
      let mine = empties i pos owner in
      let here_now : (put c cell pos x pos) ≡ x = elim (put-cases c cell pos x pos) [
        | inl (same, e) ↦ e
        | inr (other, e) ↦ absurd (other refl)
      ] in
      let grow : (r : ℕ) → (cell r).sequence ≤ (put c cell pos x r).sequence = λ r.
        elim (put-cases c cell pos x r) [
          | inl (same, e) ↦
              omega (arith, (cell_at_pos large v i pos owner) r same, ap (λ y. y.sequence) e, large)
          | inr (other, e) ↦ omega (arith, ap (λ y. y.sequence) e)
        ] in
      let kept : (r : ℕ) → r % c ≢ pos % c → (put c cell pos x r).sequence ≡ (cell r).sequence =
        λ r other. ap (λ y. y.sequence) ((put-elsewhere large v i pos owner) x r other) in
      record {
        ordered = ordered;
        room = room;
        counted = counted;
        low = λ p. elim (put-cases c cell pos x p) [
          | inl (same, e) ↦ omega (arith, ap (λ y. y.sequence) e, mine.0)
          | inr (other, e) ↦ omega (arith, ap (λ y. y.sequence) e, low p)
        ];
        ring = put-ring c cell pos x ring;
        saw =
            each seen threads i t _ (λ u e. absurd (cc))
              (λ j u other e. omega (arith, saw j u e, grow u.0));
        known = each loaded threads i t _ (λ p e. absurd (cc)) (λ j p other e. known j p e);
        fills =
            each writer threads i t _ (λ p e. absurd (cc))
              (λ j p other e. (
                (fills j p e).0,
                kept p ((other_writer large v i pos owner) j p e) ∙ (fills j p e).1,
              ));
        empties =
            each reader threads i t _ (λ p e. absurd (cc))
              (λ j p other e. (
                (empties j p e).0,
                kept p ((other_reader large v i pos owner) j p e other) ∙ (empties j p e).1,
              ));
        carries = each carried threads i t _ (λ u e. absurd (cc)) (λ j u other e. carries j u e);
        shows =
            each filled threads i t _ (λ p e. absurd (cc))
              (λ j p other e. (
                (shows j p e).0,
                ap (λ y. y.payload)
                      ((put-elsewhere large v i pos owner) x p
                        ((other_filled large v i pos owner) j p e other))
                    ∙ (shows j p e).1,
              ));
        sound = each faulted threads i t _ (λ u e. absurd (cc)) (λ j u other e. sound j u e);
        one_writer = Unique-update writer threads i t one_writer (λ p j e other d. absurd (cc));
        one_reader = Unique-update reader threads i t one_reader (λ p j e other d. absurd (cc));
        busy = λ p above below. elim (busy p above below) [
          | inl (full, entry) ↦
              let away = (busy_elsewhere large v i pos owner) p above full in
              inl (
                kept p away ∙ full,
                ap (λ y. y.payload) ((put-elsewhere large v i pos owner) x p away) ∙ entry,
              )
          | inr (j, e) ↦ inr (j, update-same writer threads i t j p (sym (ap writer here)) e)
        ];
        free = λ p above below. elim (free p above below) [
          | inl e ↦ inl (kept p (λ same. (not_free large v i pos owner) p same e) ∙ e)
          | inr (j, r, behind, e) ↦ elim (ℕ_discrete j i) [
            | yes same ↦
                let at_pos : some r ≡ some pos =
                  sym e ∙ ap (λ l. reader (threads l)) same ∙ owner in
                let there : p ≡ pos + c = sym behind ∙ ap (λ q. q + c) (cc) in
                inl (
                  ap (λ q. (put c cell pos x q).sequence) there
                  ∙ ap (λ y. y.sequence)
                      (put-ring c cell pos x ring (pos + c) pos (add-mod_right pos c))
                  ∙ ap (λ y. y.sequence) here_now
                  ∙ sym there)
            | no other ↦ inr (j, r, behind, update-kept reader threads i t j r e other)
          ]
        ];
        accounted = λ p below. elim (accounted p below) [
          | inl out ↦ inl (inr out)
          | inr (j, e) ↦ elim (ℕ_discrete j i) [
            | yes same ↦
                let at_pos : some p ≡ some pos =
                  sym e ∙ ap (λ l. reader (threads l)) same ∙ owner in
                inl (inl (cc))
            | no other ↦ inr (j, update-kept reader threads i t j p e other)
          ]
        ];
        gone = (
          record {
            behind = mine.0;
            reused = omega (arith, ap (λ y. y.sequence) here_now);
            entry = (carries i (pos, out) (ap carried here)).1;
          },
          not_left left gone,
          Gone-grows c deq deq cell (put c cell pos x) entered entered left (omega arith) grow
              (λ p h. refl) gone,
        );
      }
