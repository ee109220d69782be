-- ===== src/ThreadPool/BoundedQueue/Threads/Pushing.antt =====
-- limb-queue.hpp: each step of `push` keeps the invariant of the system.
use limb_worker.Prelude.{
  ℕ, ◌+◌, ◌^◌, ◌≤◌, ◌<◌, ◌≡◌, refl, sym, ap, subst, subst₂, ◌∙◌, Bool, true, false, not, ◌&&◌,
  Bool-cases, inl, inr, none, some, List, [], ◌∷◌, ◌++◌, arith, ◌==◌,
}
use limb_worker.ThreadPool.BoundedQueue.{
  Cell, PushPc, size_mod, add_size, diff_sign, push_step, put_cell,
}
use limb_worker.ThreadPool.BoundedQueue.Threads.{Thread, System, update, enters, run_at}
use limb_worker.ThreadPool.BoundedQueue.Threads.Views.{
  writer, reader, seen, loaded, carried, filled, faulted,
}
use limb_worker.ThreadPool.BoundedQueue.Threads.Coherent.{Coherent}
use limb_worker.ThreadPool.BoundedQueue.Threads.Entering.{enter-Coherent}
use limb_worker.ThreadPool.BoundedQueue.Threads.Filling.{write-Coherent, publish-Coherent}
use limb_worker.ThreadPool.BoundedQueue.Threads.Cells.{
  cells, cells-counters, cell_at-cells, Sign-cases, eq_of_diff_sign,
}
use limb_worker.ThreadPool.BoundedQueue.Threads.Steps.{
  push_step-same, push_step-negative, push_step-positive, push_step-write, push_step-publish,
}
use limb_worker.ThreadPool.BoundedQueue.Threads.Sound.{
  Sound, look-Sound, put-Sound, run_at-push, no_wrap, sequence_in_word,
}

module _ {ℓ} {A : Type ℓ} (k n : ℕ) (s : System A) (v : Sound k n s)
    (few : n + 2 ^ k + 1 < size_mod) (weak : Bool) (i : ℕ) where
  open v use {coherent}
  open coherent use {ordered, low, known, fills, carries}

  -- The thread goes back to look again, or gives up.
  back :
      (pc pc' : PushPc A)
      → s.threads i ≡ Thread.pushing pc
      → writer (Thread.pushing pc) ≡ none
      → push_step weak s.queue pc ≡ (s.queue, pc')
      → ((log : List A) → enters pc pc' log ≡ log)
      → writer (Thread.pushing pc') ≡ none
      → ((u : ℕ × ℕ) → seen (Thread.pushing pc') ≡ some u → u.1 ≤ (cells k s.queue u.0).sequence)
      → ((p : ℕ) → loaded (Thread.pushing pc') ≡ some p → p ≤ s.queue.enqueue_pos)
      → carried (Thread.pushing pc') ≡ none
      → filled (Thread.pushing pc') ≡ none
      → faulted (Thread.pushing pc') ≡ none
      → Sound k (n + 1) (run_at weak i (Thread.pushing pc) s)
  back pc pc' here idle step logged w see load carry fill fault =
      let t : Thread A = Thread.pushing pc' in
      subst (λ x. Sound k (n + 1) x)
        (sym (
          run_at-push weak i pc pc' s s.queue step
          ∙ ap (λ log. record s { threads = update s.threads i t; entered = log })
              (logged s.entered)))
        (look-Sound k n s i t v (w ∙ sym idle ∙ sym (ap writer here)) (sym (ap reader here)) see
          load carry fill fault)

  load_pos-Sound :
      (a : A)
      → s.threads i ≡ Thread.pushing (PushPc.load_pos a)
      → Sound k (n + 1) (run_at weak i (Thread.pushing (PushPc.load_pos a)) s)
  unfolding push_step
  load_pos-Sound a here =
      back (PushPc.load_pos a) (PushPc.load_sequence s.queue.enqueue_pos a) here refl refl
        (λ log. refl) refl (λ u e. absurd (cc)) (λ p e. ground (arith, e)) refl refl refl

  load_sequence-Sound :
      (pos : ℕ) (a : A)
      → s.threads i ≡ Thread.pushing (PushPc.load_sequence pos a)
      → Sound k (n + 1) (run_at weak i (Thread.pushing (PushPc.load_sequence pos a)) s)
  load_sequence-Sound pos a here =
      let pc : PushPc A = PushPc.load_sequence pos a in
      let found = cell_at-cells k s.queue pos v.is_ring in
      let behind : pos ≤ s.queue.enqueue_pos = known i pos (ap loaded here) in
      elim (Sign-cases (diff_sign (cells k s.queue pos).sequence pos)) [
        | inl same ↦
            let equal : (cells k s.queue pos).sequence ≡ pos =
              eq_of_diff_sign _ pos (sequence_in_word k n s v few pos)
                (omega (arith, behind, v.few, few)) same in
            back pc (PushPc.exchange pos a) here refl
              (push_step-same weak s.queue pos (cells k s.queue pos) found a same) (λ log. refl)
              refl
              (λ u e.
                let at_pos : u ≡ (pos, pos) = cc in
                subst (λ (u : ℕ × ℕ). u.1 ≤ (cells k s.queue u.0).sequence) (sym at_pos)
                  (omega (arith, equal)))
              (λ p e. let at_pos : p ≡ pos = cc in omega (arith, at_pos, behind)) refl refl refl
        | inr other ↦ elim other [
          | inl negative ↦
              back pc (PushPc.returned false) here refl
                (push_step-negative weak s.queue pos (cells k s.queue pos) found a negative)
                (λ log. refl) refl (λ u e. absurd (cc)) (λ p e. absurd (cc)) refl refl refl
          | inr positive ↦
              back pc (PushPc.load_sequence s.queue.enqueue_pos a) here refl
                (push_step-positive weak s.queue pos (cells k s.queue pos) found a positive)
                (λ log. refl) refl (λ u e. absurd (cc)) (λ p e. ground (arith, e)) refl refl refl
        ]
      ]

  taken-Sound :
      (pos : ℕ) (a : A) (next : ℕ)
      → next ≡ s.queue.enqueue_pos + 1
      → Coherent
          (2 ^ k)
          (s.queue.enqueue_pos + 1)
          s.queue.dequeue_pos
          (cells k s.queue)
          (update s.threads i (Thread.pushing (PushPc.write pos a)))
          (s.entered ++ a ∷ [])
          s.left
      → Sound k (n + 1) (record s {
        queue = record s.queue { enqueue_pos = next };
        threads = update s.threads i (Thread.pushing (PushPc.write pos a));
        entered = s.entered ++ a ∷ [];
      })
  taken-Sound pos a next e c = record {
    large = v.large;
    is_ring = record { count = v.is_ring.count; mask = v.is_ring.mask };
    few = omega (arith, e, v.few);
    coherent =
        subst₂
          (λ t f.
            Coherent (2 ^ k) t s.queue.dequeue_pos f
              (update s.threads i (Thread.pushing (PushPc.write pos a))) (s.entered ++ a ∷ [])
              s.left)
          (sym e) (sym (cells-counters k next s.queue.dequeue_pos s.queue)) c;
  }

  exchange-Sound :
      (pos : ℕ) (a : A)
      → s.threads i ≡ Thread.pushing (PushPc.exchange pos a)
      → Sound k (n + 1) (run_at weak i (Thread.pushing (PushPc.exchange pos a)) s)
  unfolding push_step
  exchange-Sound pos a here =
      let pc : PushPc A = PushPc.exchange pos a in
      elim (Bool-cases (s.queue.enqueue_pos == pos && not weak)) [
        | inl taken ↦
            let now : pos ≡ s.queue.enqueue_pos = ground (arith, taken) in
            let next : add_size pos 1 ≡ s.queue.enqueue_pos + 1 =
              omega (arith, now, no_wrap k n s v few pos (omega (arith, now, v.few))) in
            subst (λ x. Sound k (n + 1) x)
              (sym (
                run_at-push weak i pc (PushPc.write pos a) s
                  (record s.queue { enqueue_pos = add_size pos 1 }) (rw (taken) refl)))
              (taken-Sound pos a (add_size pos 1) next
                (enter-Coherent v.large coherent i pos a here now))
        | inr lost ↦
            back pc (PushPc.load_sequence s.queue.enqueue_pos a) here refl (rw (lost) refl)
              (λ log. refl) refl (λ u e. absurd (cc)) (λ p e. ground (arith, e)) refl refl refl
      ]

  write-Sound :
      (pos : ℕ) (a : A)
      → s.threads i ≡ Thread.pushing (PushPc.write pos a)
      → Sound k (n + 1) (run_at weak i (Thread.pushing (PushPc.write pos a)) s)
  write-Sound pos a here =
      let x : Cell A = record (cells k s.queue pos) { payload = some a } in
      subst (λ x. Sound k (n + 1) x)
        (sym (
          run_at-push weak i (PushPc.write pos a) (PushPc.publish pos) s (put_cell s.queue pos x) (
            push_step-write weak s.queue pos (cells k s.queue pos)
              (cell_at-cells k s.queue pos v.is_ring) a)))
        (put-Sound k n s pos x (update s.threads i (Thread.pushing (PushPc.publish pos))) s.left v
          (write-Coherent v.large coherent i pos (ap writer here) a here))

  publish-Sound :
      (pos : ℕ)
      → s.threads i ≡ Thread.pushing (PushPc.publish pos)
      → Sound k (n + 1) (run_at weak i (Thread.pushing (PushPc.publish pos)) s)
  publish-Sound pos here =
      let x : Cell A = record (cells k s.queue pos) { sequence = pos + 1 } in
      let next : add_size pos 1 ≡ pos + 1 =
        no_wrap k n s v few pos (omega (arith, (fills i pos (ap writer here)).0, v.few)) in
      subst (λ x. Sound k (n + 1) x)
        (sym (
          run_at-push weak i (PushPc.publish pos) (PushPc.returned true) s (put_cell s.queue pos x)
            (push_step-publish weak s.queue pos (cells k s.queue pos)
                (cell_at-cells k s.queue pos v.is_ring)
              ∙ ap
                  (λ t. (
                    put_cell s.queue pos (record (cells k s.queue pos) { sequence = t }),
                    PushPc.returned true,
                  ))
                  next)))
        (put-Sound k n s pos x (update s.threads i (Thread.pushing (PushPc.returned true))) s.left v
          (publish-Coherent v.large coherent i pos (ap writer here) here))

  returned-Sound :
      (ok : Bool)
      → s.threads i ≡ Thread.pushing (PushPc.returned ok)
      → Sound k (n + 1) (run_at weak i (Thread.pushing (PushPc.returned ok)) s)
  unfolding push_step
  returned-Sound ok here =
      back (PushPc.returned ok) (PushPc.returned ok) here refl refl (λ log. refl) refl
        (λ u e. absurd (cc)) (λ p e. absurd (cc)) refl refl refl

  pub push-Sound :
      (pc : PushPc A)
      → s.threads i ≡ Thread.pushing pc
      → Sound k (n + 1) (run_at weak i (Thread.pushing pc) s)
  push-Sound (PushPc.load_pos a) here = load_pos-Sound a here
  push-Sound (PushPc.load_sequence pos a) here = load_sequence-Sound pos a here
  push-Sound (PushPc.exchange pos a) here = exchange-Sound pos a here
  push-Sound (PushPc.write pos a) here = write-Sound pos a here
  push-Sound (PushPc.publish pos) here = publish-Sound pos here
  push-Sound (PushPc.returned ok) here = returned-Sound ok here
  push-Sound PushPc.fault here = absurd (coherent.sound i tt (ap faulted here))
