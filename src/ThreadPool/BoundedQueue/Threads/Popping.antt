-- ===== src/ThreadPool/BoundedQueue/Threads/Popping.antt =====
-- limb-queue.hpp: each step of `pop` keeps the invariant of the system.
use limb_worker.Prelude.{
  ℕ, ◌+◌, ◌^◌, ◌≤◌, ◌<◌, ◌≡◌, refl, sym, ap, subst, subst₂, ◌∙◌, Bool, true, false, not, ◌&&◌,
  Bool-cases, inl, inr, Option, none, some, List, ◌∷◌, arith, ◌==◌,
}
use limb_worker.ThreadPool.BoundedQueue.{
  Cell, PopPc, size_mod, add_size, diff_sign, pop_step, put_cell,
}
use limb_worker.ThreadPool.BoundedQueue.Threads.{Thread, System, update, leaves, run_at}
use limb_worker.ThreadPool.BoundedQueue.Threads.Views.{
  writer, reader, seen, loaded, carried, filled, faulted,
}
use limb_worker.ThreadPool.BoundedQueue.Threads.Coherent.{Coherent}
use limb_worker.ThreadPool.BoundedQueue.Threads.Leaving.{leave-Coherent}
use limb_worker.ThreadPool.BoundedQueue.Threads.Emptying.{read-Coherent}
use limb_worker.ThreadPool.BoundedQueue.Threads.Releasing.{release-Coherent}
use limb_worker.ThreadPool.BoundedQueue.Threads.Cells.{
  cells, cells-counters, cell_at-cells, Sign-cases, eq_of_diff_sign,
}
use limb_worker.ThreadPool.BoundedQueue.Threads.Steps.{
  pop_step-same, pop_step-negative, pop_step-positive, pop_step-read, pop_step-release,
}
use limb_worker.ThreadPool.BoundedQueue.Threads.Sound.{
  Sound, look-Sound, put-Sound, run_at-pop, no_wrap, sequence_in_word,
}

module _ {ℓ} {A : Type ℓ} (k n : ℕ) (s : System A) (v : Sound k n s)
    (few : n + 2 ^ k + 1 < size_mod) (weak : Bool) (i : ℕ) where
  open v use {coherent}
  open coherent use {ordered, known, empties}

  back :
      (pc pc' : PopPc A)
      → s.threads i ≡ Thread.popping pc
      → reader (Thread.popping pc) ≡ none
      → pop_step weak s.queue pc ≡ (s.queue, pc')
      → ((log : List (ℕ × Option A)) → leaves pc pc' log ≡ log)
      → reader (Thread.popping pc') ≡ none
      → ((u : ℕ × ℕ) → seen (Thread.popping pc') ≡ some u → u.1 ≤ (cells k s.queue u.0).sequence)
      → ((p : ℕ) → loaded (Thread.popping pc') ≡ some p → p ≤ s.queue.enqueue_pos)
      → carried (Thread.popping pc') ≡ none
      → filled (Thread.popping pc') ≡ none
      → faulted (Thread.popping pc') ≡ none
      → Sound k (n + 1) (run_at weak i (Thread.popping pc) s)
  back pc pc' here idle step logged r see load carry fill fault =
      let t : Thread A = Thread.popping pc' in
      subst (λ x. Sound k (n + 1) x)
        (sym (
          run_at-pop weak i pc pc' s s.queue step
          ∙ ap (λ log. record s { threads = update s.threads i t; left = log }) (logged s.left)))
        (look-Sound k n s i t v (sym (ap writer here)) (r ∙ sym idle ∙ sym (ap reader here)) see
          load carry fill fault)

  load_pos-Sound :
      s.threads i ≡ Thread.popping PopPc.load_pos
      → Sound k (n + 1) (run_at weak i (Thread.popping PopPc.load_pos) s)
  unfolding pop_step
  load_pos-Sound here =
      back PopPc.load_pos (PopPc.load_sequence s.queue.dequeue_pos) here refl refl (λ log. refl)
        refl (λ u e. absurd (cc)) (λ p e. ground (arith, e, ordered)) refl refl refl

  load_sequence-Sound :
      (pos : ℕ)
      → s.threads i ≡ Thread.popping (PopPc.load_sequence pos)
      → Sound k (n + 1) (run_at weak i (Thread.popping (PopPc.load_sequence pos)) s)
  load_sequence-Sound pos here =
      let pc : PopPc A = PopPc.load_sequence pos in
      let found = cell_at-cells k s.queue pos v.is_ring in
      let behind : pos ≤ s.queue.enqueue_pos = known i pos (ap loaded here) in
      let next : add_size pos 1 ≡ pos + 1 =
        no_wrap k n s v few pos (omega (arith, behind, v.few)) in
      elim (Sign-cases (diff_sign (cells k s.queue pos).sequence (add_size pos 1))) [
        | inl same ↦
            let equal : (cells k s.queue pos).sequence ≡ pos + 1 =
              eq_of_diff_sign _ (add_size pos 1) (sequence_in_word k n s v few pos)
                (omega (arith, next, behind, v.few, few)) same
              ∙ next in
            back pc (PopPc.exchange pos) here refl
              (pop_step-same weak s.queue pos (cells k s.queue pos) found same) (λ log. refl) refl
              (λ u e.
                let at_pos : u ≡ (pos, pos + 1) = cc in
                subst (λ (u : ℕ × ℕ). u.1 ≤ (cells k s.queue u.0).sequence) (sym at_pos)
                  (omega (arith, equal)))
              (λ p e. let at_pos : p ≡ pos = cc in omega (arith, at_pos, behind)) refl refl refl
        | inr other ↦ elim other [
          | inl negative ↦
              back pc (PopPc.returned none false) here refl
                (pop_step-negative weak s.queue pos (cells k s.queue pos) found negative)
                (λ log. refl) refl (λ u e. absurd (cc)) (λ p e. absurd (cc)) refl refl refl
          | inr positive ↦
              back pc (PopPc.load_sequence s.queue.dequeue_pos) here refl
                (pop_step-positive weak s.queue pos (cells k s.queue pos) found positive)
                (λ log. refl) refl (λ u e. absurd (cc)) (λ p e. ground (arith, e, ordered)) refl
                refl refl
        ]
      ]

  taken-Sound :
      (pos next : ℕ)
      → next ≡ s.queue.dequeue_pos + 1
      → Coherent
          (2 ^ k)
          s.queue.enqueue_pos
          (s.queue.dequeue_pos + 1)
          (cells k s.queue)
          (update s.threads i (Thread.popping (PopPc.read pos)))
          s.entered
          s.left
      → Sound k (n + 1) (record s {
        queue = record s.queue { dequeue_pos = next };
        threads = update s.threads i (Thread.popping (PopPc.read pos));
      })
  taken-Sound pos next e c = record {
    large = v.large;
    is_ring = record { count = v.is_ring.count; mask = v.is_ring.mask };
    few = omega (arith, v.few);
    coherent =
        subst₂
          (λ t f.
            Coherent (2 ^ k) s.queue.enqueue_pos t f
              (update s.threads i (Thread.popping (PopPc.read pos))) s.entered s.left)
          (sym e) (sym (cells-counters k s.queue.enqueue_pos next s.queue)) c;
  }

  exchange-Sound :
      (pos : ℕ)
      → s.threads i ≡ Thread.popping (PopPc.exchange pos)
      → Sound k (n + 1) (run_at weak i (Thread.popping (PopPc.exchange pos)) s)
  unfolding pop_step
  exchange-Sound pos here =
      let pc : PopPc A = PopPc.exchange pos in
      elim (Bool-cases (s.queue.dequeue_pos == pos && not weak)) [
        | inl taken ↦
            let now : pos ≡ s.queue.dequeue_pos = ground (arith, taken) in
            let next : add_size pos 1 ≡ s.queue.dequeue_pos + 1 =
              omega (arith, now, no_wrap k n s v few pos (omega (arith, now, ordered, v.few))) in
            subst (λ x. Sound k (n + 1) x)
              (sym (
                run_at-pop weak i pc (PopPc.read pos) s
                  (record s.queue { dequeue_pos = add_size pos 1 }) (rw (taken) refl)))
              (taken-Sound pos (add_size pos 1) next
                (leave-Coherent v.large coherent i pos here now))
        | inr lost ↦
            back pc (PopPc.load_sequence s.queue.dequeue_pos) here refl (rw (lost) refl)
              (λ log. refl) refl (λ u e. absurd (cc)) (λ p e. ground (arith, e, ordered)) refl refl
              refl
      ]

  read-Sound :
      (pos : ℕ)
      → s.threads i ≡ Thread.popping (PopPc.read pos)
      → Sound k (n + 1) (run_at weak i (Thread.popping (PopPc.read pos)) s)
  read-Sound pos here =
      let x : Cell A = record (cells k s.queue pos) { payload = none } in
      let out : Option A = (cells k s.queue pos).payload in
      subst (λ x. Sound k (n + 1) x)
        (sym (
          run_at-pop weak i (PopPc.read pos) (PopPc.release pos out) s (put_cell s.queue pos x) (
            pop_step-read weak s.queue pos (cells k s.queue pos)
              (cell_at-cells k s.queue pos v.is_ring))))
        (put-Sound k n s pos x (update s.threads i (Thread.popping (PopPc.release pos out))) s.left
          v (read-Coherent v.large coherent i pos (ap reader here) here))

  -- The sequence number of the round after this one does not wrap.
  next_round : (pos : ℕ) → pos ≤ n → add_size (add_size pos s.queue.buffer_mask) 1 ≡ pos + 2 ^ k
  next_round pos h = omega (arith, few, h, v.is_ring.mask, v.large)

  release-Sound :
      (pos : ℕ) (out : Option A)
      → s.threads i ≡ Thread.popping (PopPc.release pos out)
      → Sound k (n + 1) (run_at weak i (Thread.popping (PopPc.release pos out)) s)
  release-Sound pos out here =
      let x : Cell A = record (cells k s.queue pos) { sequence = pos + 2 ^ k } in
      let inside : pos ≤ n = omega (arith, (empties i pos (ap reader here)).0, ordered, v.few) in
      subst (λ x. Sound k (n + 1) x)
        (sym (
          run_at-pop weak i (PopPc.release pos out) (PopPc.returned out true) s
            (put_cell s.queue pos x)
            (pop_step-release weak s.queue pos (cells k s.queue pos)
                (cell_at-cells k s.queue pos v.is_ring) out
              ∙ ap
                  (λ t. (
                    put_cell s.queue pos (record (cells k s.queue pos) { sequence = t }),
                    PopPc.returned out true,
                  ))
                  (next_round pos inside))))
        (put-Sound k n s pos x (update s.threads i (Thread.popping (PopPc.returned out true)))
          ((pos, out) ∷ s.left) v
          (release-Coherent v.large coherent i pos (ap reader here) out here))

  returned-Sound :
      (out : Option A) (ok : Bool)
      → s.threads i ≡ Thread.popping (PopPc.returned out ok)
      → Sound k (n + 1) (run_at weak i (Thread.popping (PopPc.returned out ok)) s)
  unfolding pop_step
  returned-Sound out ok here =
      back (PopPc.returned out ok) (PopPc.returned out ok) here refl refl (λ log. refl) refl
        (λ u e. absurd (cc)) (λ p e. absurd (cc)) refl refl refl

  pub pop-Sound :
      (pc : PopPc A)
      → s.threads i ≡ Thread.popping pc
      → Sound k (n + 1) (run_at weak i (Thread.popping pc) s)
  pop-Sound PopPc.load_pos here = load_pos-Sound here
  pop-Sound (PopPc.load_sequence pos) here = load_sequence-Sound pos here
  pop-Sound (PopPc.exchange pos) here = exchange-Sound pos here
  pop-Sound (PopPc.read pos) here = read-Sound pos here
  pop-Sound (PopPc.release pos out) here = release-Sound pos out here
  pop-Sound (PopPc.returned out ok) here = returned-Sound out ok here
  pop-Sound PopPc.fault here = absurd (coherent.sound i tt (ap faulted here))
