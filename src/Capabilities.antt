-- ===== src/Capabilities.antt =====
-- internal/capabilities-provider.cpp (src/ and include/): the processors that the worker reports.
-- Each method holds `m_mutex` for all of its body (`clear` takes no lock), so a call is one step.
pub mod Report
mod Tests
use Prim.Native.String.{String}
use limb_worker.Prelude.{
  ℕ, Bool, true, false, ◌||◌, Option, none, some, List, [], ◌∷◌, ◌++◌, ◌==◌, if◌then◌else◌,
}
use limb_worker.Status.{ReturnStatus}

-- `AppInfoTask::AvailableProcessor`.
pub record AvailableProcessor : Type 0 where
  pub name : String
  pub index : ℕ

pub record AppInfoTask : Type 0 where
  pub available_processors : List AvailableProcessor
  pub total_cpu_threads : ℕ

-- `impl`, whose one field is the task that it reports.
abbrev pub Capabilities : Type 0
Capabilities = AppInfoTask

unfoldable pub fresh : ℕ → Capabilities
fresh hardware_concurrency = record {
  available_processors = [];
  total_cpu_threads = hardware_concurrency;
}

pub has_index : ℕ → List AvailableProcessor → Bool
has_index index [] = false
has_index index (proc ∷ procs) = proc.index == index || has_index index procs

-- `vec.erase` of the first processor with the index.
pub erase_index : ℕ → List AvailableProcessor → List AvailableProcessor
erase_index index [] = []
erase_index index (proc ∷ procs) =
    if proc.index == index then procs else proc ∷ erase_index index procs

pub add_available_processor : Capabilities → String → ℕ → Capabilities × ReturnStatus
unfolding has_index
add_available_processor c name index =
    if has_index index c.available_processors then (c, ReturnStatus.k_already_exists) else (
      record c {
        available_processors = c.available_processors ++ record { name = name; index = index } ∷ [];
      },
      ReturnStatus.k_ok,
    )

pub remove_available_processor : Capabilities → ℕ → Capabilities × ReturnStatus
unfolding has_index erase_index
remove_available_processor c index =
    if has_index index c.available_processors
    then (
      record c { available_processors = erase_index index c.available_processors },
      ReturnStatus.k_ok,
    )
    else (c, ReturnStatus.k_not_found)

pub clear : Capabilities → Capabilities
clear c = record c { available_processors = [] }

unfoldable pub get_app_info : Capabilities → AppInfoTask
get_app_info c = c
