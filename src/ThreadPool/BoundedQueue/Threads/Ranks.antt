-- ===== src/ThreadPool/BoundedQueue/Threads/Ranks.antt =====
-- limb-queue.hpp: how many steps a call has left, at most, if no other thread runs.
use limb_worker.Prelude.{
  ℕ, ◌+◌, ◌^◌, ◌≤◌, ◌<◌, ◌≡◌, refl, true, false, some, arith, ◌==◌, if◌then◌else◌,
}
use limb_worker.ThreadPool.BoundedQueue.{Queue, Sign, PushPc, PopPc, size_mod, diff_sign}
use limb_worker.ThreadPool.BoundedQueue.Threads.{Thread, System, update, is_done, run_at}
use limb_worker.ThreadPool.BoundedQueue.Threads.Views.{faulted}

-- A sequence number that is not ahead of the position, and less than half a word behind.
pub not_positive :
    (a b d : ℕ) → a ≤ b → b ≤ a + d → d ≤ 2 ^ 63 → b < size_mod → diff_sign a b ≡ Sign.positive → ⊥
unfolding diff_sign
not_positive a b d p q h w e = ground arith

module _ {ℓ} {A : Type ℓ} where
  -- A bound on the steps that are left, if no other thread runs.
  unfoldable pub push_rank : ℕ → PushPc A → ℕ
  push_rank enq (PushPc.load_pos a) = 5
  push_rank enq (PushPc.load_sequence pos a) = if pos == enq then 4 else 6
  push_rank enq (PushPc.exchange pos a) = if pos == enq then 3 else 5
  push_rank enq (PushPc.write pos a) = 2
  push_rank enq (PushPc.publish pos) = 1
  push_rank enq (PushPc.returned ok) = 0
  push_rank enq PushPc.fault = 0

  unfoldable pub pop_rank : ℕ → PopPc A → ℕ
  pop_rank deq PopPc.load_pos = 5
  pop_rank deq (PopPc.load_sequence pos) = if pos == deq then 4 else 6
  pop_rank deq (PopPc.exchange pos) = if pos == deq then 3 else 5
  pop_rank deq (PopPc.read pos) = 2
  pop_rank deq (PopPc.release pos out) = 1
  pop_rank deq (PopPc.returned out ok) = 0
  pop_rank deq PopPc.fault = 0

  unfoldable pub rank : Queue A → Thread A → ℕ
  unfolding push_rank pop_rank
  rank q Thread.idle = 0
  rank q (Thread.pushing pc) = push_rank q.enqueue_pos pc
  rank q (Thread.popping pc) = pop_rank q.dequeue_pos pc

  pub run_at-idle : (i : ℕ) (s : System A) → run_at false i Thread.idle s ≡ s
  unfolding run_at
  run_at-idle i s = refl

  pub update_self : (f : ℕ → Thread A) (i : ℕ) (t : Thread A) → update f i t i ≡ t
  update_self f i t = ground arith

  pub rank-le : (q : Queue A) (t : Thread A) → rank q t ≤ 6
  unfolding rank push_rank pop_rank
  rank-le q Thread.idle = omega arith
  rank-le q (Thread.pushing (PushPc.load_pos a)) = omega arith
  rank-le q (Thread.pushing (PushPc.load_sequence pos a)) = ground arith
  rank-le q (Thread.pushing (PushPc.exchange pos a)) = ground arith
  rank-le q (Thread.pushing (PushPc.write pos a)) = omega arith
  rank-le q (Thread.pushing (PushPc.publish pos)) = omega arith
  rank-le q (Thread.pushing (PushPc.returned ok)) = omega arith
  rank-le q (Thread.pushing PushPc.fault) = omega arith
  rank-le q (Thread.popping PopPc.load_pos) = omega arith
  rank-le q (Thread.popping (PopPc.load_sequence pos)) = ground arith
  rank-le q (Thread.popping (PopPc.exchange pos)) = ground arith
  rank-le q (Thread.popping (PopPc.read pos)) = omega arith
  rank-le q (Thread.popping (PopPc.release pos out)) = omega arith
  rank-le q (Thread.popping (PopPc.returned out ok)) = omega arith
  rank-le q (Thread.popping PopPc.fault) = omega arith

  pub rank-done :
      (q : Queue A) (t : Thread A)
      → rank q t ≤ 0
      → ((u : Unit {0}) → faulted t ≡ some u → ⊥)
      → (is_done t ≡ true)
  unfolding rank push_rank pop_rank
  rank-done q Thread.idle h f = refl
  rank-done q (Thread.pushing (PushPc.load_pos a)) h f = absurd (omega (arith, h))
  rank-done q (Thread.pushing (PushPc.load_sequence pos a)) h f = ground (arith, h)
  rank-done q (Thread.pushing (PushPc.exchange pos a)) h f = ground (arith, h)
  rank-done q (Thread.pushing (PushPc.write pos a)) h f = absurd (omega (arith, h))
  rank-done q (Thread.pushing (PushPc.publish pos)) h f = absurd (omega (arith, h))
  rank-done q (Thread.pushing (PushPc.returned ok)) h f = refl
  rank-done q (Thread.pushing PushPc.fault) h f = absurd (f tt refl)
  rank-done q (Thread.popping PopPc.load_pos) h f = absurd (omega (arith, h))
  rank-done q (Thread.popping (PopPc.load_sequence pos)) h f = ground (arith, h)
  rank-done q (Thread.popping (PopPc.exchange pos)) h f = ground (arith, h)
  rank-done q (Thread.popping (PopPc.read pos)) h f = absurd (omega (arith, h))
  rank-done q (Thread.popping (PopPc.release pos out)) h f = absurd (omega (arith, h))
  rank-done q (Thread.popping (PopPc.returned out ok)) h f = refl
  rank-done q (Thread.popping PopPc.fault) h f = absurd (f tt refl)
