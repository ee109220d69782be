-- ===== src/Tasks/Tests.antt =====
-- The parser and the builder at concrete inputs.
use limb_worker.Prelude.{◌≡◌, refl, true, some, none, [], ◌∷◌, Outcome, str_eq, if◌then◌else◌}
use limb_worker.Status.{ReturnStatus}
use limb_worker.Service.Process.{ImageTask}
use limb_worker.Tasks.{
  Call, Document, Simdjson, TaskParser, TaskParserType, TaskStatus, from_type, parse_image,
  parse_ping, serialize_ping, serialize_result, serialize_app_info, app_info_calls, ping_calls,
  result_calls, processor_calls, read_image, read_ping,
}

abbrev document : Document
document = record {
  get_string = λ key. if str_eq key "imageId" then some "65f1" else none;
  get_uint64 = λ key. if str_eq key "modelId" then some 2 else none;
}

abbrev lib : Simdjson
lib = record { parse = λ bytes. some document; build = λ calls. [] }

abbrev blank : ImageTask
blank = record { model_id = 0; image_id = "" }

abbrev task : ImageTask
task = record { model_id = 2; image_id = "65f1" }

parsed :
    (parse_image lib (some (123 ∷ 125 ∷ [])) blank ≡ Outcome.done (task, ReturnStatus.k_ok))
    × (parse_image lib none blank ≡ Outcome.done (blank, ReturnStatus.k_invalid_input))
    × (parse_ping lib (some (123 ∷ 125 ∷ [])) (record { message = "" })
        ≡ Outcome.done (record { message = "" }, ReturnStatus.k_invalid_input))
    × (from_type true TaskParserType.k_json ≡ some TaskParser.json_task_parser)
    × (from_type true TaskParserType.k_protobuf ≡ none)
unfolding parse_image parse_ping from_type read_image read_ping
parsed = (refl, refl, refl, refl, refl)

built :
    (serialize_ping lib (record { message = "Pong" }) ≡ ([], ReturnStatus.k_ok))
    × (serialize_result lib (record { message = "Done"; status = TaskStatus.done })
        ≡ ([], ReturnStatus.k_ok))
    × (serialize_app_info lib (record { available_processors = []; total_cpu_threads = 4 })
        ≡ ([], ReturnStatus.k_ok))
unfolding serialize_ping serialize_result serialize_app_info ping_calls result_calls
built = (refl, refl, refl)

-- Two processors, and one comma between them.
two_processors :
    app_info_calls (record {
      available_processors =
          record { name = "rmbg"; index = 0 } ∷ record { name = "loopback"; index = 1 } ∷ [];
      total_cpu_threads = 4;
    })
    ≡ Call.start_object
      ∷ Call.append_number "totalCpuThreads" 4
      ∷ Call.append_comma
      ∷ Call.escape_and_append_with_quotes "availableProcessors"
      ∷ Call.append_colon
      ∷ Call.start_array
      ∷ Call.start_object
      ∷ Call.append_number "index" 0
      ∷ Call.append_comma
      ∷ Call.append_text "name" "rmbg"
      ∷ Call.end_object
      ∷ Call.append_comma
      ∷ Call.start_object
      ∷ Call.append_number "index" 1
      ∷ Call.append_comma
      ∷ Call.append_text "name" "loopback"
      ∷ Call.end_object
      ∷ Call.end_array
      ∷ Call.end_object
      ∷ []
unfolding app_info_calls processor_calls
two_processors = refl
