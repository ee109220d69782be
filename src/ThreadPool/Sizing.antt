-- ===== src/ThreadPool/Sizing.antt =====
-- include/utils/bithacks.h and include/thread-pool/thread-pool-options.hpp: the size of the queue
-- and the number of the threads, as `main` chooses them.
pub mod Power
use Prim.Native.Nat.{bit_or}
use limb_worker.Prelude.{ℕ, ◌+◌, ◌-◌, ◌/◌, ◌%◌, ◌^◌, min, max, leb, if◌then◌else◌}

-- `v |= v >> k`.
unfoldable pub smear : ℕ → ℕ → ℕ
smear k v = bit_or v (v / 2 ^ k)

-- On `uint32_t`.
unfoldable pub next_power_of_two : ℕ → ℕ
next_power_of_two v =
    if leb v 2 then 2 else (smear 16 (smear 8 (smear 4 (smear 2 (smear 1 (v - 1))))) + 1) % 2 ^ 32

pub record ThreadPoolOptions : Type 0 where
  pub thread_count : ℕ
  pub queue_size : ℕ

-- The argument is what `std::thread::hardware_concurrency` returns.
pub default_options : ℕ → ThreadPoolOptions
default_options hardware_concurrency = record {
  thread_count = max 1 hardware_concurrency;
  queue_size = 1024;
}

pub set_thread_count : ℕ → ThreadPoolOptions → ThreadPoolOptions
set_thread_count count o = record o { thread_count = max 1 count }

pub set_queue_size : ℕ → ThreadPoolOptions → ThreadPoolOptions
set_queue_size size o = record o { queue_size = max 1 size }

-- The options in `main`, with `thd_count` read as `int` and handed on as `uint32_t`: the model is for
-- counts that an `int` holds. `queue_count` comes from ncnn.
pub main_options : ℕ → ℕ → ThreadPoolOptions
unfolding default_options set_thread_count set_queue_size
main_options queue_count thd_count =
    set_queue_size (next_power_of_two thd_count)
      (set_thread_count (min queue_count thd_count) (default_options thd_count))
