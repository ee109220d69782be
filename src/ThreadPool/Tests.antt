-- ===== src/ThreadPool/Tests.antt =====
-- Runs of the queue and of the sizes at concrete inputs.
mod Interleaved
mod Functors
use limb_worker.Prelude.{
  Bool, ◌%◌, ◌==◌, ◌++◌, if◌then◌else◌, ℕ, ◌*◌, ◌^◌, ◌≤◌, ◌<◌, ◌≡◌, refl, true, false, none, some,
  List, [], ◌∷◌, arith,
}
use limb_worker.ThreadPool.BoundedQueue.{Queue, make, fresh_cells}
use limb_worker.ThreadPool.BoundedQueue.Fifo.{
  Call, run, run_fifo, offer, poll, queue_refines, make_pow,
}
use limb_worker.ThreadPool.Workers.{Action, Phase, Worker, construct, run_pool, act, fresh_workers}
use limb_worker.ThreadPool.Workers.Tasks.{count, accounted, run_pool-construct, run_pool-stops_none}
use limb_worker.ThreadPool.Workers.Shutdown.{steps, shut, about_to_block, shut-steps, shut-calls}
use limb_worker.ThreadPool.Sizing.{next_power_of_two, smear, main_options}
use limb_worker.ThreadPool.Sizing.Power.{
  next_power_of_two_lem, next_power_of_two-wraps, main_options-make,
}

abbrev script : List (Call ℕ)
script = Call.pushes 7 ∷ Call.pushes 8 ∷ Call.pushes 9 ∷ Call.pops ∷ Call.pops ∷ Call.pops ∷ []

script_run :
    run_fifo 2 [] script
    ≡ (true, none)
      ∷ (true, none)
      ∷ (false, none)
      ∷ (true, some 7)
      ∷ (true, some 8)
      ∷ (false, none)
      ∷ []
unfolding run_fifo offer poll
script_run = refl

queue_refines_example :
    (q : Queue ℕ) × (make (2 ^ 1) ≡ some q) × (run q script ≡ some (run_fifo (2 ^ 1) [] script))
queue_refines_example = queue_refines ℕ 1 script (omega arith) (omega arith)

abbrev pub pair_queue : Queue ℕ
unfolding fresh_cells
pair_queue = record { buffer = fresh_cells 2 0; buffer_mask = 1; enqueue_pos = 0; dequeue_pos = 0 }

pub make-pair : make 2 ≡ some pair_queue
unfolding make fresh_cells
make-pair = refl

next_power_of_two_values :
    (next_power_of_two 0 ≡ 2) × (next_power_of_two 5 ≡ 8) × (next_power_of_two 1024 ≡ 1024)
unfolding next_power_of_two smear
next_power_of_two_values = (refl, refl, refl)

next_power_of_two_example :
    (k : ℕ) × (1 ≤ k) × (k ≤ 31) × (next_power_of_two 12 ≡ 2 ^ k) × (12 ≤ 2 ^ k) × (2 ^ k < 2 * 12)
next_power_of_two_example = next_power_of_two_lem 12 (omega arith) (omega arith)

main_options-make_example :
    let o = main_options 2 12 in
    (1 ≤ o.thread_count) × (12 ≤ o.queue_size) × ((q : Queue ℕ) × (make o.queue_size ≡ some q))
main_options-make_example = main_options-make 2 12 (omega arith)

abbrev even : ℕ → Bool
even n = n % 2 == 0

-- A task is posted, called by the first of two workers, and the second blocks.
abbrev shift : List (Action ℕ)
shift =
    Action.runs 0
    ∷ Action.pushes 4
    ∷ Action.notifies_one 1
    ∷ Action.runs 0
    ∷ Action.pushes 6
    ∷ Action.runs 0
    ∷ Action.runs 1
    ∷ Action.runs 1
    ∷ []

run_pool-construct_example :
    let p = run_pool (shift ++ (Action.stops 0 ∷ Action.runs 0 ∷ [])) (construct 2 4) in
    count even p.posted ≤ accounted even p
run_pool-construct_example =
    run_pool-construct even (shift ++ (Action.stops 0 ∷ Action.runs 0 ∷ [])) 2 4

run_pool-stops_none_example :
    let p = run_pool shift (construct 2 4) in accounted even p ≡ count even p.posted
run_pool-stops_none_example = run_pool-stops_none even shift 2 4 refl

abbrev idle : Worker ℕ
idle = record { running = true; phase = Phase.blocked; handler = some 4 }

shut-steps_example :
    (steps ([] ∷ [] ∷ [] ∷ [] ∷ []) (shut (record idle { phase = Phase.blocks }))).0.phase
    ≡ (if about_to_block Phase.blocks then Phase.blocked else Phase.ended)
shut-steps_example = shut-steps (record idle { phase = Phase.blocks }) [] [] [] [] []

shut-calls_example :
    (steps ([] ∷ [] ∷ [] ∷ [] ∷ []) (shut idle)).1
    ≡ (elim idle.handler [ none ↦ [] | some a ↦ a ∷ [] ])
shut-calls_example = shut-calls idle [] [] [] [] refl

-- A shutdown that calls the last task once more.
called_twice :
    (run_pool {A = ℕ}
      (Action.pushes 4
        ∷ Action.runs 0
        ∷ Action.runs 0
        ∷ Action.runs 0
        ∷ Action.runs 0
        ∷ Action.runs 0
        ∷ Action.stops 0
        ∷ Action.notifies_all
        ∷ Action.runs 0
        ∷ Action.runs 0
        ∷ [])
      (construct 1 4)).called
    ≡ 4 ∷ 4 ∷ []
unfolding run_pool construct act offer poll fresh_workers
called_twice = refl
