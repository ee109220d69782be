-- ===== src/Processors/Rmbg/Loading.antt =====
-- processors/rmbg/rmbg.cpp: what the container holds, on every outcome of `init`.
use limb_worker.Prelude.{
  ◌≡◌, Bool, true, false, not, ◌&&◌, ◌||◌, inl, inr, Option-cases, Option, none, some, [], ◌∷◌,
  ◌++◌, arith, if◌then◌else◌,
}
use limb_worker.Status.{ReturnStatus}
use limb_worker.Files.{File, load_file_content}
use limb_worker.Processors.Transfers.{held}
use limb_worker.Processors.Rmbg.{
  Resource, Setting, OptionCalls, number, fresh_container, delete_container, deinit, init,
  construct, try_acquire_processor,
}

-- The model's file opens and tells its size.
abbrev pub is_readable : Option File → Bool
is_readable none = false
is_readable (some file) = elim file.told [ none ↦ false | some size ↦ true ]

-- Every call on the options that is made returns.
abbrev pub configures : OptionCalls → Bool
configures calls = elim calls.cuda_supported [
  | none ↦ false
  | some cuda ↦
      calls.returns Setting.logs_warnings
      && (calls.returns Setting.all_optimizations
          && (not cuda
              || (calls.returns Setting.cuda_provider && calls.returns Setting.no_mem_pattern)))
]

-- For every outcome of the parts of `init` of a new container: it throws exactly if a call on the
-- session's options throws, or the file loads and the session does not open; if not, it returns kOk
-- if the file loads and kNotFound if it does not. A processor can be acquired exactly after kOk. An
-- exception leaves the device instance held, kOk the session too, and kNotFound nothing. `deinit`, its
-- new options made, then gives back all that is held, each once, and the container is as new; but after
-- kNotFound it gives back the instance a second time.
pub init_lem :
    (calls : OptionCalls) (opens : Bool) (file : Option File)
    → let (c, events, ret) = init calls file opens fresh_container in
      let (c', freed, ret') = deinit c in
      let fails = configures calls && not (is_readable file) in
      let serves = configures calls && (is_readable file && opens) in
      (ret ≡ (
        if serves
        then some ReturnStatus.k_ok
        else (if fails then some ReturnStatus.k_not_found else none)))
      × (held number [] events
          ≡ some (
              if serves
              then Resource.session ∷ Resource.gpu_instance ∷ []
              else (if fails then [] else Resource.gpu_instance ∷ [])))
      × (try_acquire_processor c ≡ (if serves then some construct else none))
      × (c' ≡ fresh_container)
      × (held number [] (events ++ (freed ++ delete_container c'))
          ≡ (if fails then none else some []))
unfolding init deinit delete_container try_acquire_processor load_file_content
init_lem calls opens none = elim (Option-cases calls.cuda_supported) [
  | inl e ↦ ground (arith, e)
  | inr (true, e) ↦ ground (arith, e)
  | inr (false, e) ↦ ground (arith, e)
]
init_lem calls opens (some file) = elim (Option-cases calls.cuda_supported) [
  | inl e ↦ ground (arith, e)
  | inr (true, e) ↦ elim (Option-cases file.told) [
    | inl n ↦ ground (arith, e, n)
    | inr (size, n) ↦ ground (arith, e, n)
  ]
  | inr (false, e) ↦ elim (Option-cases file.told) [
    | inl n ↦ ground (arith, e, n)
    | inr (size, n) ↦ ground (arith, e, n)
  ]
]
