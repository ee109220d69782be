-- ===== src/ThreadPool/Workers/Tasks.antt =====
-- worker.hpp and thread-pool.hpp: what becomes of the posted tasks.
use limb_worker.Prelude.{
  ℕ, zero, suc, ◌+◌, ◌≤◌, ◌≡◌, refl, ap, ◌∙◌, Bool, true, false, ◌&&◌, Option, none, some, List, [],
  ◌∷◌, ◌++◌, map, arith, get_elem?, set, if◌then◌else◌,
}
use limb_worker.ThreadPool.BoundedQueue.Fifo.{offer, poll}
use limb_worker.ThreadPool.Workers.{
  Phase, Worker, Pool, Action, wake, stop, thread_func, at_found, run_found, act, run_pool,
  construct, fresh_workers,
}

module _ {ℓ} {A : Type ℓ} where
  -- How many of the tasks pass the test.
  abbrev pub count : (A → Bool) → List A → ℕ
  count test [] = 0
  count test (x ∷ xs) = (if test x then 1 else 0) + count test xs

  abbrev pub held_by : (A → Bool) → Phase → Option A → ℕ
  held_by test Phase.calls (some a) = count test (a ∷ [])
  held_by test phase handler = 0

  -- The task that a worker has popped and not called yet.
  abbrev pub hand : (A → Bool) → Worker A → ℕ
  hand test w = held_by test w.phase w.handler

  abbrev pub hands : (A → Bool) → List (Worker A) → ℕ
  hands test [] = 0
  hands test (w ∷ ws) = hand test w + hands test ws

  abbrev pub all_running : List (Worker A) → Bool
  all_running [] = true
  all_running (w ∷ ws) = w.running && all_running ws

  abbrev pub stops_none : List (Action A) → Bool
  stops_none [] = true
  stops_none (Action.stops i ∷ rest) = false
  stops_none (Action.runs i ∷ rest) = stops_none rest
  stops_none (Action.pushes a ∷ rest) = stops_none rest
  stops_none (Action.notifies_one i ∷ rest) = stops_none rest
  stops_none (Action.notifies_all ∷ rest) = stops_none rest

  -- The tasks that are called, queued or popped.
  abbrev pub accounted : (A → Bool) → Pool A → ℕ
  accounted test p = count test p.called + count test p.queue + hands test p.workers

module _ {ℓ} {A : Type ℓ} (test : A → Bool) where
  count-append : (xs ys : List A) → count test (xs ++ ys) ≡ count test xs + count test ys
  count-append [] ys = omega arith
  count-append (x ∷ xs) ys = omega (arith, count-append xs ys)

  wake-hand : (w : Worker A) → (hand test (wake w) ≡ hand test w) × ((wake w).running ≡ w.running)
  wake-hand w = by_phase w.phase w.handler w.running
    where
      by_phase :
          (phase : Phase) (handler : Option A) (running : Bool)
          → let w : Worker A = record { running = running; phase = phase; handler = handler } in
            (hand test (wake w) ≡ hand test w) × ((wake w).running ≡ w.running)
      by_phase Phase.tests_flag handler running = (refl, refl)
      by_phase Phase.pops handler running = (refl, refl)
      by_phase Phase.tests_stop handler running = (refl, refl)
      by_phase Phase.blocks handler running = (refl, refl)
      by_phase Phase.blocked none running = (refl, refl)
      by_phase Phase.blocked (some a) running = (refl, refl)
      by_phase Phase.calls handler running = (refl, refl)
      by_phase Phase.ended handler running = (refl, refl)

  hands-wake :
      (ws : List (Worker A))
      → (hands test (map wake ws) ≡ hands test ws) × (all_running (map wake ws) ≡ all_running ws)
  hands-wake [] = (refl, refl)
  hands-wake (w ∷ ws) =
      let (same, still) = wake-hand w in
      let (rest, running) = hands-wake ws in (omega (arith, same, rest), rw (still, running) refl)

  hands-set :
      (ws : List (Worker A)) (i : ℕ) (w w' : Worker A)
      → get_elem? ws i ≡ some w
      → hands test (set ws i w') + hand test w ≡ hands test ws + hand test w'
  hands-set [] i w w' found = ground (arith, found)
  hands-set (x ∷ ws) zero w w' found = ground (arith, found)
  hands-set (x ∷ ws) (suc i) w w' found = omega (arith, hands-set ws i w w' found)

  -- A step loses no task, and calls none again while the worker runs.
  abbrev Steady : List A → Worker A → Type 0
  Steady queue w =
      let ((after, w'), call) = thread_func queue w in
      (count test queue + hand test w ≤ count test call + count test after + hand test w')
      × (w.running ≡ true
          → count test call + count test after + hand test w' ≡ count test queue + hand test w)
      × (w'.running ≡ w.running)

  thread_func-Steady : (queue : List A) (w : Worker A) → Steady queue w
  unfolding poll
  thread_func-Steady queue w = by_phase w.phase queue w.handler w.running
    where
      by_phase :
          (phase : Phase) (queue : List A) (handler : Option A) (running : Bool)
          → Steady queue (record { running = running; phase = phase; handler = handler })
      by_phase Phase.tests_flag queue handler running = ground arith
      by_phase Phase.pops [] handler running = ground arith
      by_phase Phase.pops (x ∷ queue) handler running = ground arith
      by_phase Phase.tests_stop queue handler running = ground arith
      by_phase Phase.blocks queue handler running = ground arith
      by_phase Phase.blocked queue handler running = ground arith
      by_phase Phase.calls queue none running = ground arith
      by_phase Phase.calls queue (some a) running = ground arith
      by_phase Phase.ended queue handler running = ground arith

  all_running-set :
      (ws : List (Worker A)) (i : ℕ) (w w' : Worker A)
      → get_elem? ws i ≡ some w
      → w'.running ≡ w.running
      → all_running (set ws i w') ≡ all_running ws
  all_running-set [] i w w' found same = refl
  all_running-set (x ∷ ws) zero w w' found same = ground (arith, found, same)
  all_running-set (x ∷ ws) (suc i) w w' found same =
      ap (λ b. x.running && b) (all_running-set ws i w w' found same)

  one_running :
      (ws : List (Worker A)) (i : ℕ) (w : Worker A)
      → get_elem? ws i ≡ some w
      → all_running ws ≡ true
      → w.running ≡ true
  one_running [] i w found all = ground (arith, found)
  one_running (x ∷ ws) zero w found all = ground (arith, found, all)
  one_running (x ∷ ws) (suc i) w found all = one_running ws i w found (ground (arith, all))

  hands-at_found :
      (f : Worker A → Worker A) (i : ℕ) (ws : List (Worker A)) (found : Option (Worker A))
      → get_elem? ws i ≡ found
      → ((w : Worker A) → hand test (f w) ≡ hand test w)
      → hands test (at_found f i ws found) ≡ hands test ws
  hands-at_found f i ws none e same = refl
  hands-at_found f i ws (some w) e same = omega (arith, hands-set ws i w (f w) e, same w)

  all_running-wake :
      (i : ℕ) (ws : List (Worker A)) (found : Option (Worker A))
      → get_elem? ws i ≡ found
      → all_running (at_found wake i ws found) ≡ all_running ws
  all_running-wake i ws none e = refl
  all_running-wake i ws (some w) e = all_running-set ws i w (wake w) e ((wake-hand w).1)

  -- What an action does to a pool's tasks.
  abbrev pub Accounts : Action A → Pool A → Pool A → Type 0
  Accounts a p p' =
      (count test p.posted ≤ accounted test p → count test p'.posted ≤ accounted test p')
      × (stops_none (a ∷ []) ≡ true
          → all_running p.workers ≡ true
          → accounted test p ≡ count test p.posted
          → (accounted test p' ≡ count test p'.posted) × (all_running p'.workers ≡ true))

  run_found-Accounts :
      (i : ℕ) (p : Pool A) (found : Option (Worker A))
      → get_elem? p.workers i ≡ found
      → Accounts (Action.runs i) p (run_found i p found)
  run_found-Accounts i p none e = (λ h. h, λ s r h. (h, r))
  run_found-Accounts i p (some w) e =
      let (lossless, once, still) = thread_func-Steady p.queue w in
      let ((after, w'), call) = thread_func p.queue w in
      let moved = hands-set p.workers i w w' e in
      let called = count-append call p.called in
      (
        λ h. omega (arith, h, lossless, moved, called),
        λ s r h. (
          omega (arith, h, once (one_running p.workers i w e r), moved, called),
          all_running-set p.workers i w w' e still ∙ r,
        ),
      )

  act-Accounts : (a : Action A) (p : Pool A) → Accounts a p (act a p)
  unfolding act offer
  act-Accounts (Action.runs i) p = run_found-Accounts i p (get_elem? p.workers i) refl
  act-Accounts (Action.pushes a) p =
      let appended = count-append p.queue (a ∷ []) in
      (λ h. ground (arith, h, appended), λ s r h. (ground (arith, h, appended), r))
  act-Accounts (Action.notifies_one i) p =
      let same =
        hands-at_found wake i p.workers (get_elem? p.workers i) refl (λ w. (wake-hand w).0) in
      (
        λ h. omega (arith, h, same),
        λ s r h.
            (omega (arith, h, same), all_running-wake i p.workers (get_elem? p.workers i) refl ∙ r),
      )
  act-Accounts (Action.stops i) p =
      let same = hands-at_found stop i p.workers (get_elem? p.workers i) refl (λ w. refl) in
      (λ h. omega (arith, h, same), λ s r h. ground (arith, s))
  act-Accounts Action.notifies_all p =
      let (same, running) = hands-wake p.workers in
      (λ h. omega (arith, h, same), λ s r h. (omega (arith, h, same), running ∙ r))

  run_pool-lossless :
      (actions : List (Action A)) (p : Pool A)
      → count test p.posted ≤ accounted test p
      → let p' = run_pool actions p in count test p'.posted ≤ accounted test p'
  unfolding run_pool
  run_pool-lossless [] p h = h
  run_pool-lossless (a ∷ rest) p h = run_pool-lossless rest (act a p) ((act-Accounts a p).0 h)

  stops_none-cons :
      (a : Action A) (rest : List (Action A))
      → stops_none (a ∷ rest) ≡ true
      → (stops_none (a ∷ []) ≡ true) × (stops_none rest ≡ true)
  stops_none-cons (Action.runs i) rest h = (refl, h)
  stops_none-cons (Action.pushes b) rest h = (refl, h)
  stops_none-cons (Action.notifies_one i) rest h = (refl, h)
  stops_none-cons (Action.stops i) rest h = ground (arith, h)
  stops_none-cons Action.notifies_all rest h = (refl, h)

  run_pool-once :
      (actions : List (Action A)) (p : Pool A)
      → stops_none actions ≡ true
      → all_running p.workers ≡ true
      → accounted test p ≡ count test p.posted
      → let p' = run_pool actions p in accounted test p' ≡ count test p'.posted
  unfolding run_pool
  run_pool-once [] p s r h = h
  run_pool-once (a ∷ rest) p s r h =
      let (first, later) = stops_none-cons a rest s in
      let (h', r') = (act-Accounts a p).1 first r h in run_pool-once rest (act a p) later r' h'

  fresh_workers-hands :
      (n : ℕ) → (hands test (fresh_workers n) ≡ 0) × (all_running {A = A} (fresh_workers n) ≡ true)
  unfolding fresh_workers
  fresh_workers-hands zero = (refl, refl)
  fresh_workers-hands (suc n) =
      let (none_held, running) = fresh_workers-hands n in (omega (arith, none_held), running)

  -- For any test on tasks, any number of workers and capacity, and any interleaving of posts, workers'
  -- steps, wake-ups and stops after the constructor: of the tasks that the queue took and that pass
  -- the test, none is lost: there are at least as many among the called, the queued and those that a
  -- worker has popped and is about to call.
  pub run_pool-construct :
      (actions : List (Action A)) (threads capacity : ℕ)
      → let p = run_pool actions (construct threads capacity) in
        count test p.posted ≤ accounted test p
  unfolding construct
  run_pool-construct actions threads capacity =
      run_pool-lossless actions (construct threads capacity) (omega arith)

  -- As long as no worker is stopped, none is called twice either: for any test on tasks, any number of
  -- workers and capacity, and any interleaving of posts, workers' steps and wake-ups after the
  -- constructor, the called, the queued and the popped tasks that pass the test are as many as the
  -- tasks that the queue took and that pass it.
  pub run_pool-stops_none :
      (actions : List (Action A)) (threads capacity : ℕ)
      → stops_none actions ≡ true
      → let p = run_pool actions (construct threads capacity) in
        accounted test p ≡ count test p.posted
  unfolding construct
  run_pool-stops_none actions threads capacity s =
      let (none_held, running) = fresh_workers-hands threads in
      run_pool-once actions (construct threads capacity) s running (omega (arith, none_held))
