-- ===== src/Amqp/Heartbeats.antt =====
-- src/internal/app-transport/amqp-handler.cpp: `heartbeater`, over what the clock says when it wakes,
-- with a connection that is not null.
use native.Mathlib.Nat.{div-lt_iff_lt-mul, mul-le-mul_left}
use native.Mathlib.Decide.{dec_lt}
use limb_worker.Prelude.{
  ℕ, ◌+◌, ◌-◌, ◌*◌, ◌/◌, ◌^◌, ◌≤◌, ◌<◌, ◌≡◌, ◌⊎◌, inl, inr, refl, Bool, true, false, not,
  Bool-cases, List, [], ◌∷◌, ltb, leb, arith, if◌then◌else◌, Outcome, ◌>>=◌,
}

-- What holds when the thread wakes: the time, the time of the last message that was sent, and whether
-- the handler was told to quit before the thread slept.
pub record Tick : Type 0 where
  pub current_time : ℕ
  pub last_message : ℕ
  pub quit : Bool

-- The times are in parts of a second, as many as `second` says.
module _ (second : ℕ) where
  abbrev seconds : ℕ → ℕ → ℕ
  seconds now earlier = (now - earlier) / second

  -- `uint16_t(diff.count())` of `currentTime - earlier`: a conversion from a `float` that does not fit
  -- is undefined. The rounding of the `float` is left out, and an `earlier` behind `now`, which a message
  -- sent since then gives, is no time ago.
  unfoldable pub duration_count : ℕ → ℕ → Outcome ℕ
  duration_count now earlier =
      if ltb (seconds now earlier) (2 ^ 16)
      then Outcome.done (seconds now earlier)
      else Outcome.undefined

  -- `lastSent` after a round, and whether it called `heartbeat`.
  unfoldable pub beat : ℕ → Tick → ℕ → Outcome (ℕ × Bool)
  unfolding duration_count
  beat interval tick last_sent = duration_count tick.current_time last_sent >>= λ diff.
      if not (leb interval diff)
      then Outcome.done (last_sent, false)
      else (duration_count tick.current_time tick.last_message >>= λ write_diff. Outcome.done (
          if ltb write_diff interval
          then (tick.last_message, false)
          else (tick.current_time, true)))

  -- The rounds, by the value of `lastSent` behind each and whether it sent a heartbeat.
  unfoldable pub heartbeater : ℕ → List Tick → ℕ → Outcome (List (Tick × ℕ × Bool))
  unfolding beat
  heartbeater interval [] last_sent = Outcome.done []
  heartbeater interval (tick ∷ rest) last_sent =
      if tick.quit
      then Outcome.done []
      else (beat interval tick last_sent >>= λ r.
          heartbeater interval rest r.0 >>= λ more. Outcome.done ((tick, r.0, r.1) ∷ more))

  -- A round that begins `last_sent` after the last activity that it knows: behind it the last activity
  -- is less than the interval ago, and it is the one known, the last message, or a heartbeat now, which
  -- is sent only where the others are the interval ago.
  Alive : ℕ → ℕ → Tick → ℕ → Bool → Type 0
  Alive interval last_sent tick sent beats =
      (tick.current_time < sent + interval * second)
      × (((sent ≡ last_sent) × (beats ≡ false))
          ⊎ ((sent ≡ tick.last_message) × (beats ≡ false))
          ⊎ ((sent ≡ tick.current_time)
              × (beats ≡ true)
              × (last_sent + interval * second ≤ tick.current_time)
              × (tick.last_message + interval * second ≤ tick.current_time)))

  due :
      (interval now earlier : ℕ)
      → 1 ≤ second
      → interval ≤ seconds now earlier
      → (1 ≤ interval)
      → earlier + interval * second ≤ now
  due interval now earlier p h one =
      let long : interval ≤ interval * second = omega (arith, mul-le-mul_left interval p) in
      elim (dec_lt (now - earlier) (interval * second)) [
        | yes soon ↦ absurd (omega (arith, (div-lt_iff_lt-mul p).1 soon, h))
        | no late ↦ omega (arith, late, long, one)
      ]

  not_due :
      (interval now earlier : ℕ)
      → 1 ≤ second
      → seconds now earlier < interval
      → now < earlier + interval * second
  not_due interval now earlier p h = omega (arith, (div-lt_iff_lt-mul p).0 h)

  duration_count-done :
      (now earlier : ℕ)
      → 1 ≤ second
      → now < earlier + 2 ^ 16 * second
      → duration_count now earlier ≡ Outcome.done (seconds now earlier)
  unfolding duration_count
  duration_count-done now earlier p h =
      let apart : now - earlier < 2 ^ 16 * second = omega (arith, h, p) in
      let fits : seconds now earlier < 2 ^ 16 = (div-lt_iff_lt-mul p).1 apart in
      ground (arith, fits)

  -- Where both durations fit.
  beat-Alive :
      (interval : ℕ) (tick : Tick) (last_sent : ℕ)
      → 1 ≤ second
      → 1 ≤ interval
      → tick.current_time < last_sent + 2 ^ 16 * second
      → tick.current_time < tick.last_message + 2 ^ 16 * second
      → (r : ℕ × Bool) × (beat interval tick last_sent ≡ Outcome.done r)
        × Alive interval last_sent tick r.0 r.1
  unfolding beat Alive
  beat-Alive interval tick last_sent p h sent message =
      let since = duration_count-done tick.current_time last_sent p sent in
      let silence = duration_count-done tick.current_time tick.last_message p message in
      elim (Bool-cases (leb interval (seconds tick.current_time last_sent))) [
        | inr early ↦ (
          (last_sent, false),
          rw (since, early) refl,
          (
            not_due interval tick.current_time last_sent p (ground (arith, early)),
            inl (refl, refl),
          ),
        )
        | inl late ↦
            elim (Bool-cases (ltb (seconds tick.current_time tick.last_message) interval)) [
              | inl busy ↦ (
                (tick.last_message, false),
                rw (since, late, silence, busy) refl,
                (
                  not_due interval tick.current_time tick.last_message p (ground (arith, busy)),
                  inr (inl (refl, refl)),
                ),
              )
              | inr silent ↦ (
                (tick.current_time, true),
                rw (since, late, silence, silent) refl,
                (
                  omega (arith, mul-le-mul_left interval p, h),
                  inr (
                      inr (
                        refl,
                        refl,
                        due interval tick.current_time last_sent p (ground (arith, late)) h,
                        due interval tick.current_time tick.last_message p (ground (arith, silent))
                            h,
                      )),
                ),
              )
            ]
      ]

  -- Each round, from what the round before it left.
  pub Rounds : ℕ → ℕ → List (Tick × ℕ × Bool) → Type 0
  unfolding Alive
  Rounds interval last_sent [] = Unit {0}
  Rounds interval last_sent ((tick, sent, beats) ∷ rest) =
      Alive interval last_sent tick sent beats × Rounds interval sent rest

  -- Each wake is at most `gap` behind the one before it, and finds a message of the last 2 ^ 16 seconds.
  abbrev pub Timely : ℕ → ℕ → List Tick → Type 0
  Timely gap before [] = Unit {0}
  Timely gap before (tick ∷ rest) =
      (tick.current_time ≤ before + gap)
      × (tick.current_time < tick.last_message + 2 ^ 16 * second)
      × Timely gap tick.current_time rest

  heartbeater-keeps :
      (interval gap : ℕ) (ticks : List Tick) (last_sent before : ℕ)
      → 1 ≤ second
      → 1 ≤ interval
      → interval * second + gap ≤ 2 ^ 16 * second
      → before < last_sent + interval * second
      → Timely gap before ticks
      → (rounds : List (Tick × ℕ × Bool)) × (heartbeater interval ticks last_sent
          ≡ Outcome.done rounds)
        × Rounds interval last_sent rounds
  unfolding heartbeater Rounds Alive
  heartbeater-keeps interval gap [] last_sent before p h w e timely = ([], refl, tt)
  heartbeater-keeps interval gap (tick ∷ rest) last_sent before p h w e (near, message, later) =
      elim (Bool-cases tick.quit) [
        | inl quits ↦ ([], ground (arith, quits), tt)
        | inr goes_on ↦
            let (r, beaten, alive) = beat-Alive interval tick last_sent p h (omega arith) message in
            let (rounds, run, all) =
              heartbeater-keeps interval gap rest r.0 tick.current_time p h w (alive.0) later in
            ((tick, r.0, r.1) ∷ rounds, ground (arith, goes_on, beaten, run), (alive, all))
      ]

  -- For an interval of a second at least, wakes at most `gap` apart, the interval and the gap 2 ^ 16
  -- seconds together at most, and a last message less than 2 ^ 16 seconds old at each wake: the thread's
  -- rounds are defined, and behind every round the last activity that the thread knows is less than the
  -- interval ago. It is the one it knew, the last message, or a heartbeat that it sends now; it sends
  -- one only if both of the others are the interval ago or more.
  pub heartbeater-Rounds :
      (interval gap : ℕ) (ticks : List Tick) (last_sent : ℕ)
      → 1 ≤ second
      → 1 ≤ interval
      → interval * second + gap ≤ 2 ^ 16 * second
      → Timely gap last_sent ticks
      → (rounds : List (Tick × ℕ × Bool)) × (heartbeater interval ticks last_sent
          ≡ Outcome.done rounds)
        × Rounds interval last_sent rounds
  heartbeater-Rounds interval gap ticks last_sent p h w timely =
      let positive : 1 ≤ interval * second = omega (arith, mul-le-mul_left interval p, h) in
      heartbeater-keeps interval gap ticks last_sent last_sent p h w (omega (arith, positive))
        timely
