-- ===== src/ThreadPool/Tests/Interleaved.antt =====
-- Interleaved calls of one queue at concrete schedules.
use limb_worker.Prelude.{
  ◌++◌, ℕ, ◌+◌, ◌%◌, ◌^◌, ◌≤◌, ◌<◌, ◌≡◌, ◌≢◌, refl, true, false, some, List, [], ◌∷◌, arith, length,
  drop,
}
use limb_worker.ThreadPool.BoundedQueue.{
  fresh_cells, push_step, pop_step, cell_at, put_cell, cell_index, diff_sign,
}
use limb_worker.ThreadPool.BoundedQueue.Fifo.{Call, run, run_fifo}
use limb_worker.ThreadPool.BoundedQueue.Threads.{Action, is_done, run_system, act, run_at, begin}
use limb_worker.ThreadPool.BoundedQueue.Threads.Coherent.{HasLeft}
use limb_worker.ThreadPool.BoundedQueue.Threads.Delivery.{
  Delivered, run_system-delivers, run_system-apart,
}
use limb_worker.ThreadPool.BoundedQueue.Threads.Progress.{alone, run_system-returns}
use limb_worker.ThreadPool.BoundedQueue.Threads.Quiet.{run_system-lossless}
use limb_worker.ThreadPool.Tests.{pair_queue, make-pair}

-- Both threads find position 0 free; the second loses the exchange and takes position 1.
abbrev race : List (Action ℕ)
race =
    Action.calls_push 0 7
    ∷ Action.calls_push 1 8
    ∷ Action.runs 0 false
    ∷ Action.runs 1 false
    ∷ Action.runs 0 false
    ∷ Action.runs 1 false
    ∷ Action.runs 0 false
    ∷ Action.runs 1 false
    ∷ Action.runs 1 false
    ∷ Action.runs 1 false
    ∷ []

-- The second publishes first; a third thread takes the oldest entry.
abbrev rest : List (Action ℕ)
rest =
    Action.runs 1 false
    ∷ Action.runs 1 false
    ∷ Action.runs 0 false
    ∷ Action.runs 0 false
    ∷ Action.calls_pop 2
    ∷ alone 5 2

raced : (run_system race (begin pair_queue)).entered ≡ 7 ∷ 8 ∷ []
unfolding pair_queue fresh_cells push_step pop_step cell_at put_cell cell_index diff_sign run_system
    act run_at begin
raced = refl

delivered : (run_system (race ++ rest) (begin pair_queue)).left ≡ (0, some 7) ∷ []
unfolding pair_queue fresh_cells push_step pop_step cell_at put_cell cell_index diff_sign run_system
    act run_at begin alone
delivered = refl

run_system-delivers_example :
    (let s = run_system (race ++ rest) (begin pair_queue) in
      (s.queue.dequeue_pos ≤ s.queue.enqueue_pos)
      × (s.queue.enqueue_pos ≤ s.queue.dequeue_pos + 2 ^ 1)
      × (length s.entered ≡ s.queue.enqueue_pos)
      × Delivered s.queue.dequeue_pos s.entered s.left)
unfolding alone
run_system-delivers_example =
    run_system-delivers 1 (race ++ rest) (omega arith) (omega arith) (omega arith) pair_queue
      make-pair

run_system-apart_example : 0 % 2 ^ 1 ≢ 1 % 2 ^ 1
unfolding pair_queue fresh_cells push_step pop_step cell_at put_cell cell_index diff_sign run_system
    act run_at begin
run_system-apart_example =
    run_system-apart 1 race (omega arith) (omega arith) (omega arith) pair_queue 0 1 0 1 make-pair
      (omega arith) refl refl

run_system-returns_example :
    is_done ((run_system (alone 6 0) (run_system race (begin pair_queue))).threads 0) ≡ true
run_system-returns_example =
    run_system-returns 1 race pair_queue 0 (omega arith) (omega arith) (omega arith) make-pair

quiet : (i : ℕ) → is_done ((run_system (race ++ rest) (begin pair_queue)).threads i) ≡ true
unfolding pair_queue fresh_cells push_step pop_step cell_at put_cell cell_index diff_sign run_system
    act run_at begin alone
quiet i = ground arith

run_system-lossless_example :
    (let s = run_system (race ++ rest) (begin pair_queue) in
      ((b : ℕ) → b < s.queue.dequeue_pos → HasLeft b s.left)
      × (run s.queue (Call.pops ∷ [])
          ≡ some (run_fifo (2 ^ 1) (drop s.queue.dequeue_pos s.entered) (Call.pops ∷ []))))
unfolding alone
run_system-lossless_example =
    run_system-lossless 1 (race ++ rest) (omega arith) (omega arith) (omega arith) pair_queue
      (Call.pops ∷ []) make-pair quiet
