-- ===== src/ThreadPool/BoundedQueue/Threads/Nearer.antt =====
-- limb-queue.hpp: each step of a thread brings it nearer to the end of its call, if no other runs.
use limb_worker.Prelude.{
  ℕ, ◌+◌, ◌-◌, ◌^◌, ◌≤◌, ◌<◌, ◌≡◌, inl, inr, refl, sym, subst, true, false, Bool-cases, none, arith,
  ◌==◌,
}
use limb_worker.ThreadPool.BoundedQueue.{
  Queue, Sign, PushPc, PopPc, size_mod, add_size, diff_sign, push_step, pop_step,
}
use limb_worker.ThreadPool.BoundedQueue.Threads.{Thread, System, run_at}
use limb_worker.ThreadPool.BoundedQueue.Threads.Entering.{next_cell}
use limb_worker.ThreadPool.BoundedQueue.Threads.Leaving.{first_cell}
use limb_worker.ThreadPool.BoundedQueue.Threads.Cells.{cells, cell_at-cells, Sign-cases}
use limb_worker.ThreadPool.BoundedQueue.Threads.Steps.{
  push_step-same, push_step-negative, push_step-positive, push_step-write, push_step-publish,
  pop_step-same, pop_step-negative, pop_step-positive, pop_step-read, pop_step-release,
}
use limb_worker.ThreadPool.BoundedQueue.Threads.Sound.{Sound, run_at-push, run_at-pop, no_wrap}
use limb_worker.ThreadPool.BoundedQueue.Threads.Ranks.{
  push_rank, pop_rank, rank, run_at-idle, update_self, not_positive,
}

module _ {ℓ} {A : Type ℓ} (k n : ℕ) (s : System A) (v : Sound k n s) (half : 2 ^ k ≤ 2 ^ 63)
    (few : n + 2 ^ k + 1 < size_mod) where
  open v use {coherent}
  open coherent use {ordered, known}

  -- A thread that knows the next position finds room or a full queue there.
  next_sign :
      diff_sign (cells k s.queue s.queue.enqueue_pos).sequence s.queue.enqueue_pos ≡ Sign.positive
      → ⊥
  next_sign e = elim (next_cell v.large coherent 0) [
    | inl (below, near) ↦
        not_positive _ s.queue.enqueue_pos (2 ^ k) (omega (arith, below)) near half
          (omega (arith, v.few, few)) e
    | inr (here, room) ↦
        not_positive _ s.queue.enqueue_pos (2 ^ k) (omega (arith, here)) (omega (arith, here)) half
          (omega (arith, v.few, few)) e
  ]

  first_sign :
      diff_sign (cells k s.queue s.queue.dequeue_pos).sequence (add_size s.queue.dequeue_pos 1)
        ≡ Sign.positive
      → ⊥
  first_sign e =
      let next : add_size s.queue.dequeue_pos 1 ≡ s.queue.dequeue_pos + 1 =
        no_wrap k n s v few s.queue.dequeue_pos (omega (arith, ordered, v.few)) in
      elim (first_cell v.large coherent 0) [
        | inl (below, near) ↦
            not_positive _ (add_size s.queue.dequeue_pos 1) (2 ^ k) (omega (arith, next, below))
              (omega (arith, next, near)) half (omega (arith, next, ordered, v.few, few)) e
        | inr (more, full, entry) ↦
            not_positive _ (add_size s.queue.dequeue_pos 1) (2 ^ k) (omega (arith, next, full))
              (omega (arith, next, full)) half (omega (arith, next, ordered, v.few, few)) e
      ]

  -- A step of a thread brings it nearer to its end.
  push_nearer :
      (pc : PushPc A)
      → (q : Queue A) × (pc' : PushPc A) × (push_step false s.queue pc ≡ (q, pc'))
        × (push_rank q.enqueue_pos pc' ≤ push_rank s.queue.enqueue_pos pc - 1)
  unfolding push_rank push_step
  push_nearer (PushPc.load_pos a) =
      (s.queue, PushPc.load_sequence s.queue.enqueue_pos a, refl, ground arith)
  push_nearer (PushPc.load_sequence pos a) =
      let found = cell_at-cells k s.queue pos v.is_ring in
      elim (Sign-cases (diff_sign (cells k s.queue pos).sequence pos)) [
        | inl same ↦ (
          s.queue,
          PushPc.exchange pos a,
          push_step-same false s.queue pos _ found a same,
          ground arith,
        )
        | inr other ↦ elim other [
          | inl negative ↦ (
            s.queue,
            PushPc.returned false,
            push_step-negative false s.queue pos _ found a negative,
            omega arith,
          )
          | inr positive ↦ elim (Bool-cases (pos == s.queue.enqueue_pos)) [
            | inl current ↦
                let here : pos ≡ s.queue.enqueue_pos = ground (arith, current) in
                absurd (
                  next_sign (
                    subst (λ p. diff_sign (cells k s.queue p).sequence p ≡ Sign.positive) here
                      positive))
            | inr stale ↦ (
              s.queue,
              PushPc.load_sequence s.queue.enqueue_pos a,
              push_step-positive false s.queue pos _ found a positive,
              ground (arith, stale),
            )
          ]
        ]
      ]
  push_nearer (PushPc.exchange pos a) = elim (Bool-cases (s.queue.enqueue_pos == pos)) [
    | inl same ↦ (
      record s.queue { enqueue_pos = add_size pos 1 },
      PushPc.write pos a,
      rw (same) refl,
      ground (arith, same),
    )
    | inr stale ↦ (
      s.queue,
      PushPc.load_sequence s.queue.enqueue_pos a,
      rw (stale) refl,
      ground (arith, stale),
    )
  ]
  push_nearer (PushPc.write pos a) = (
    _,
    PushPc.publish pos,
    push_step-write false s.queue pos _ (cell_at-cells k s.queue pos v.is_ring) a,
    omega arith,
  )
  push_nearer (PushPc.publish pos) = (
    _,
    PushPc.returned true,
    push_step-publish false s.queue pos _ (cell_at-cells k s.queue pos v.is_ring),
    omega arith,
  )
  push_nearer (PushPc.returned ok) = (s.queue, PushPc.returned ok, refl, omega arith)
  push_nearer PushPc.fault = (s.queue, PushPc.fault, refl, omega arith)

  pop_nearer :
      (pc : PopPc A)
      → (q : Queue A) × (pc' : PopPc A) × (pop_step false s.queue pc ≡ (q, pc'))
        × (pop_rank q.dequeue_pos pc' ≤ pop_rank s.queue.dequeue_pos pc - 1)
  unfolding pop_rank pop_step
  pop_nearer PopPc.load_pos = (s.queue, PopPc.load_sequence s.queue.dequeue_pos, refl, ground arith)
  pop_nearer (PopPc.load_sequence pos) =
      let found = cell_at-cells k s.queue pos v.is_ring in
      elim (Sign-cases (diff_sign (cells k s.queue pos).sequence (add_size pos 1))) [
        | inl same ↦ (
          s.queue,
          PopPc.exchange pos,
          pop_step-same false s.queue pos _ found same,
          ground arith,
        )
        | inr other ↦ elim other [
          | inl negative ↦ (
            s.queue,
            PopPc.returned none false,
            pop_step-negative false s.queue pos _ found negative,
            omega arith,
          )
          | inr positive ↦ elim (Bool-cases (pos == s.queue.dequeue_pos)) [
            | inl current ↦
                let here : pos ≡ s.queue.dequeue_pos = ground (arith, current) in
                absurd (
                  first_sign (
                    subst
                      (λ p. diff_sign (cells k s.queue p).sequence (add_size p 1) ≡ Sign.positive)
                      here positive))
            | inr stale ↦ (
              s.queue,
              PopPc.load_sequence s.queue.dequeue_pos,
              pop_step-positive false s.queue pos _ found positive,
              ground (arith, stale),
            )
          ]
        ]
      ]
  pop_nearer (PopPc.exchange pos) = elim (Bool-cases (s.queue.dequeue_pos == pos)) [
    | inl same ↦ (
      record s.queue { dequeue_pos = add_size pos 1 },
      PopPc.read pos,
      rw (same) refl,
      ground (arith, same),
    )
    | inr stale ↦
        (s.queue, PopPc.load_sequence s.queue.dequeue_pos, rw (stale) refl, ground (arith, stale))
  ]
  pop_nearer (PopPc.read pos) = (
    _,
    PopPc.release pos _,
    pop_step-read false s.queue pos _ (cell_at-cells k s.queue pos v.is_ring),
    omega arith,
  )
  pop_nearer (PopPc.release pos out) = (
    _,
    PopPc.returned out true,
    pop_step-release false s.queue pos _ (cell_at-cells k s.queue pos v.is_ring) out,
    omega arith,
  )
  pop_nearer (PopPc.returned out ok) = (s.queue, PopPc.returned out ok, refl, omega arith)
  pop_nearer PopPc.fault = (s.queue, PopPc.fault, refl, omega arith)

  pub nearer :
      (i : ℕ) (t : Thread A)
      → s.threads i ≡ t
      → rank (run_at false i t s).queue ((run_at false i t s).threads i) ≤ rank s.queue t - 1
  unfolding rank
  nearer i Thread.idle here =
      subst (λ x. rank x.queue (x.threads i) ≤ 0) (sym (run_at-idle i s))
        (subst (λ t. rank s.queue t ≤ 0) (sym here) (omega arith))
  nearer i (Thread.pushing pc) here =
      let (q, pc', step, less) = push_nearer pc in
      subst (λ x. rank x.queue (x.threads i) ≤ rank s.queue (Thread.pushing pc) - 1)
        (sym (run_at-push false i pc pc' s q step))
        (subst (λ t. rank q t ≤ rank s.queue (Thread.pushing pc) - 1)
          (sym (update_self s.threads i (Thread.pushing pc'))) less)
  nearer i (Thread.popping pc) here =
      let (q, pc', step, less) = pop_nearer pc in
      subst (λ x. rank x.queue (x.threads i) ≤ rank s.queue (Thread.popping pc) - 1)
        (sym (run_at-pop false i pc pc' s q step))
        (subst (λ t. rank q t ≤ rank s.queue (Thread.popping pc) - 1)
          (sym (update_self s.threads i (Thread.popping pc'))) less)
