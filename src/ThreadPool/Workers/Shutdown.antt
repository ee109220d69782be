-- ===== src/ThreadPool/Workers/Shutdown.antt =====
-- worker.hpp and thread-pool.hpp: what the destructor does to a worker.
use limb_worker.Prelude.{
  ◌≡◌, refl, sym, Bool, true, false, Option, none, some, List, [], ◌∷◌, ◌++◌, subst, append-nil,
  if◌then◌else◌,
}
use limb_worker.ThreadPool.BoundedQueue.Fifo.{poll}
use limb_worker.ThreadPool.Workers.{Phase, Worker, wake, stop, thread_func}

abbrev pub about_to_block : Phase → Bool
about_to_block Phase.tests_flag = false
about_to_block Phase.pops = false
about_to_block Phase.tests_stop = false
about_to_block Phase.blocks = true
about_to_block Phase.blocked = false
about_to_block Phase.calls = false
about_to_block Phase.ended = false

module _ {ℓ} {A : Type ℓ} where
  -- A worker's steps, with the queue that each of them finds, and the tasks called.
  abbrev pub steps : List (List A) → Worker A → Worker A × List A
  steps [] w = (w, [])
  steps (queue ∷ queues) w =
      let ((after, w'), call) = thread_func queue w in
      let (last, calls) = steps queues w' in (last, call ++ calls)

  -- The worker after the destructor's `stop` and `notify_all`.
  abbrev pub shut : Worker A → Worker A
  shut w = wake (stop w)

  ended_stays :
      (queues : List (List A)) (running : Bool) (handler : Option A)
      → steps queues (record { running = running; phase = Phase.ended; handler = handler })
        ≡ (record { running = running; phase = Phase.ended; handler = handler }, [])
  ended_stays [] running handler = refl
  ended_stays (q ∷ queues) running handler = rw (ended_stays queues running handler) refl

  blocked_stays :
      (queues : List (List A)) (running : Bool) (handler : Option A)
      → steps queues (record { running = running; phase = Phase.blocked; handler = handler })
        ≡ (record { running = running; phase = Phase.blocked; handler = handler }, [])
  blocked_stays [] running handler = refl
  blocked_stays (q ∷ queues) running handler = rw (blocked_stays queues running handler) refl

  -- For any worker, stopped and notified wherever it stands, and any four and more steps of its own,
  -- whatever each finds in the queue: it has ended, unless it stood between a predicate that failed
  -- and the block; then it missed the notification, and is blocked however many steps it is given.
  pub shut-steps :
      (w : Worker A) (q₁ q₂ q₃ q₄ : List A) (queues : List (List A))
      → (steps (q₁ ∷ q₂ ∷ q₃ ∷ q₄ ∷ queues) (shut w)).0.phase
        ≡ (if about_to_block w.phase then Phase.blocked else Phase.ended)
  unfolding poll
  shut-steps w q₁ q₂ q₃ q₄ queues = by_phase w.phase w.handler q₁ q₂
    where
      by_phase :
          (phase : Phase) (handler : Option A) (q₁ q₂ : List A)
          → (steps
              (q₁ ∷ q₂ ∷ q₃ ∷ q₄ ∷ queues)
              (shut (record { running = w.running; phase = phase; handler = handler }))).0.phase
            ≡ (if about_to_block phase then Phase.blocked else Phase.ended)
      by_phase Phase.tests_flag handler q₁ q₂ = rw (ended_stays queues false handler) refl
      by_phase Phase.pops handler [] q₂ = rw (ended_stays queues false handler) refl
      by_phase Phase.pops handler (x ∷ q₁) q₂ = rw (ended_stays queues false (some x)) refl
      by_phase Phase.tests_stop handler q₁ q₂ = rw (ended_stays queues false handler) refl
      by_phase Phase.blocks handler q₁ q₂ = rw (blocked_stays queues false handler) refl
      by_phase Phase.blocked handler [] q₂ = rw (ended_stays queues false handler) refl
      by_phase Phase.blocked handler (x ∷ q₁) q₂ = rw (ended_stays queues false (some x)) refl
      by_phase Phase.calls handler q₁ q₂ = rw (ended_stays queues false handler) refl
      by_phase Phase.ended handler q₁ q₂ = rw (ended_stays queues false handler) refl

  -- For any worker that is blocked when it is stopped and notified, and finds the queue empty: in its
  -- next four and more steps it calls once more what it called last, and nothing else.
  pub shut-calls :
      (w : Worker A) (q₂ q₃ q₄ : List A) (queues : List (List A))
      → w.phase ≡ Phase.blocked
      → (steps ([] ∷ q₂ ∷ q₃ ∷ q₄ ∷ queues) (shut w)).1
        ≡ (elim w.handler [ none ↦ [] | some a ↦ a ∷ [] ])
  unfolding poll
  shut-calls w q₂ q₃ q₄ queues h =
      subst
        (λ phase.
          (steps ([] ∷ q₂ ∷ q₃ ∷ q₄ ∷ queues) (shut (record w { phase = phase }))).1
          ≡ (elim w.handler [ none ↦ [] | some a ↦ a ∷ [] ]))
        (sym h)
        (rw (ended_stays queues false w.handler)
          (append-nil (elim w.handler [ none ↦ [] | some a ↦ a ∷ [] ])))
