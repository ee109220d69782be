-- ===== src/Processors/Rmbg/Replay.antt =====
-- processors/rmbg/rmbg.cpp: a machine that the commands of `process_image` run on.
use limb_worker.Prelude.{
  ℕ, ◌*◌, ◌≡◌, ◌↔◌, Bool, true, false, not, ◌&&◌, Option, none, some, List, [], ◌∷◌, ◌++◌,
  if◌then◌else◌, Outcome,
}
use limb_worker.Status.{ReturnStatus}
use limb_worker.Processors.{int_fits}
use limb_worker.Processors.Transfers.{Transfer}
use limb_worker.Processors.Rmbg.{Resource, Input, Output, Command, Calls}

-- The allocators that are held, what is in the memory of the host and of the device, the commands that
-- are recorded and not yet submitted, and the bytes of the result that are allocated and written.
pub record Machine : Type 0 where
  pub blob : Bool
  pub staging : Bool
  pub input : Bool
  pub mask : Bool
  pub has_mask : Bool
  pub has_input : Bool
  pub has_output : Bool
  pub computed : Bool
  pub recorded : List Command
  pub result : Option ℕ
  pub written : Option ℕ

abbrev pub idle : Machine
idle = record {
  blob = false;
  staging = false;
  input = false;
  mask = false;
  has_mask = false;
  has_input = false;
  has_output = false;
  computed = false;
  recorded = [];
  result = none;
  written = none;
}

abbrev pub only_if : Bool → Machine → Option Machine
only_if test m = if test then some m else none

-- The device runs a recorded command: the pipeline needs its three bindings, and the download its
-- result.
abbrev pub execute : Machine → Command → Option Machine
execute m Command.clones_mask = some (record m { has_mask = true })
execute m Command.clones_image = some (record m { has_input = true })
execute m (Command.postprocesses constants w h c) =
    only_if (m.has_mask && (m.has_input && m.has_output)) (record m { computed = true })
execute m (Command.writes_pixels n) = only_if m.computed (record m { written = some n })
execute m c = none

abbrev pub execute_all : Machine → List Command → Option Machine
execute_all m [] = some m
execute_all m (c ∷ cs) = elim (execute m c) [ none ↦ none | some m' ↦ execute_all m' cs ]

abbrev pub transfer : Machine → Transfer Resource → Option Machine
transfer m (Transfer.takes Resource.blob_allocator) =
    only_if (not m.blob) (record m { blob = true })
transfer m (Transfer.takes Resource.staging_allocator) =
    only_if (not m.staging) (record m { staging = true })
transfer m (Transfer.frees Resource.blob_allocator) = elim m.recorded [
  | [] ↦ only_if m.blob (record m { blob = false; has_output = false })
  | c ∷ cs ↦ none
]
transfer m (Transfer.frees Resource.staging_allocator) = elim m.recorded [
  | [] ↦ only_if m.staging (record m { staging = false })
  | c ∷ cs ↦ none
]
transfer m t = none

-- A step; `none` is a misuse. To record a command needs the allocators, and its source on the host or
-- its memory there; an allocator is taken once, and not given back under a recorded command.
abbrev pub step : Machine → Command → Option Machine
step m (Command.transfers t) = transfer m t
step m (Command.reports n) = some m
step m (Command.resizes type w h to_w to_h) = some m
step m Command.normalizes = some (record m { input = true })
step m Command.runs_session = only_if m.input (record m { mask = true })
step m (Command.creates_output w h c) = only_if m.blob (record m { has_output = true })
step m Command.clones_mask =
    only_if (m.blob && (m.staging && m.mask))
      (record m { recorded = m.recorded ++ Command.clones_mask ∷ [] })
step m Command.clones_image =
    only_if (m.blob && m.staging) (record m { recorded = m.recorded ++ Command.clones_image ∷ [] })
step m (Command.postprocesses constants w h c) =
    only_if m.blob
      (record m { recorded = m.recorded ++ Command.postprocesses constants w h c ∷ [] })
step m Command.submits_and_waits = execute_all (record m { recorded = [] }) m.recorded
step m (Command.allocates_result n) = elim m.result [
  | none ↦ some (record m { result = some n })
  | some old ↦ none
]
step m (Command.writes_pixels n) = elim m.result [
  | none ↦ none
  | some size ↦
      only_if m.staging (record m { recorded = m.recorded ++ Command.writes_pixels n ∷ [] })
]
step m Command.drops_commands = some (record m { recorded = [] })

abbrev pub replay : Machine → List Command → Option Machine
replay m [] = some m
replay m (c ∷ cs) = elim (step m c) [ none ↦ none | some m' ↦ replay m' cs ]

abbrev pub all_return : Calls → Bool
all_return calls =
    calls.reports && (calls.creates_tensor && (calls.runs && (calls.gives_data && calls.allocates)))

-- The commands run without misuse, to a machine that holds no allocator and has no command left, and
-- whose allocated result is written whole and is what is handed out.
abbrev pub Clean : Output → List Command → Type 0
Clean out commands =
    (m : Machine) × (replay idle commands ≡ some m)
    × (m.blob ≡ false)
    × (m.staging ≡ false)
    × (m.recorded ≡ [])
    × (m.result ≡ out.data_length)
    × (m.written ≡ out.data_length)

abbrev pub Served : Calls → Input → Outcome (Output × Option ReturnStatus × List Command) → Type 0
Served calls image Outcome.throws = ⊥
Served calls image Outcome.undefined = int_fits image.w image.h 4 ≡ false
Served calls image (Outcome.done (out, ret, commands)) =
    (int_fits image.w image.h 4 ≡ true)
    × Clean out commands
    × (out.data_length ≡ (if all_return calls then some (image.w * image.h * 4) else none))
    × ((ret ≡ some ReturnStatus.k_ok) ↔ (all_return calls ≡ true))
