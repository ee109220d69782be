-- ===== src/Capabilities/Tests.antt =====
-- The report at concrete inputs.
use limb_worker.Prelude.{◌≡◌, refl, some, [], ◌∷◌, ◌==◌, if◌then◌else◌}
use limb_worker.Status.{ReturnStatus}
use limb_worker.Capabilities.{
  Capabilities, add_available_processor, remove_available_processor, get_app_info, has_index,
  erase_index, fresh, clear,
}
use limb_worker.Capabilities.Report.{Distinct, name_of, add_available_processor_lem}

abbrev sample : Capabilities
sample = record {
  available_processors =
      record { name = "realesrgan"; index = 0 } ∷ record { name = "rmbg"; index = 3 } ∷ [];
  total_cpu_threads = 8;
}

sample_built :
    (add_available_processor (add_available_processor (fresh 8) "realesrgan" 0).0 "rmbg" 3
      ≡ (sample, ReturnStatus.k_ok))
    × ((clear sample) ≡ fresh 8)
unfolding add_available_processor has_index fresh clear
sample_built = (refl, refl)

sample_removed : (remove_available_processor sample 4) ≡ (sample, ReturnStatus.k_not_found)
unfolding remove_available_processor has_index erase_index
sample_removed = refl

sample-Distinct : Distinct sample.available_processors
unfolding has_index
sample-Distinct = (refl, (refl, tt))

add_available_processor_example :
    let (c', ret) = add_available_processor sample "loopback" 1 in
    let used = has_index 1 sample.available_processors in
    (ret ≡ (if used then ReturnStatus.k_already_exists else ReturnStatus.k_ok))
    × (name_of 1 (get_app_info c').available_processors ≡ (
        if used
        then name_of 1 sample.available_processors
        else if 1 == 1
        then some "loopback"
        else name_of 1 sample.available_processors))
add_available_processor_example = add_available_processor_lem sample "loopback" 1 1
