-- ===== src/Tasks.antt =====
-- The tasks and their JSON: include/app-tasks/task-types.hpp, src/internal/app-tasks/task-parser.cpp
-- and json-task-parser.cpp. A call holds the mutex of the parser or of the builder, so it is one step.
pub mod Rendering
mod Tests
use Prim.Native.String.{String}
use limb_worker.Prelude.{
  ℕ, ◌+◌, ◌-◌, ◌^◌, Bool, Option, none, some, List, [], ◌∷◌, ◌++◌, ltb, if◌then◌else◌, length,
  Bytes, Outcome,
}
use limb_worker.Status.{ReturnStatus}
use limb_worker.Capabilities.{AvailableProcessor, AppInfoTask}
use limb_worker.Service.Process.{ImageTask}

-- `ImageTaskResult::Status` and its values.
pub data TaskStatus : Type 0 where
  done fail progress : TaskStatus

abbrev pub task_status_code : TaskStatus → ℕ
task_status_code TaskStatus.done = 0
task_status_code TaskStatus.fail = 1
task_status_code TaskStatus.progress = 2

pub record ImageTaskResult : Type 0 where
  pub message : String
  pub status : TaskStatus

pub record PingTask : Type 0 where
  pub message : String

-- What simdjson reads: `doc[key].get_string()` and `doc[key].get_uint64()`, `none` for an error.
pub record Document : Type 0 where
  pub get_string : String → Option String
  pub get_uint64 : String → Option ℕ

-- The calls of simdjson's string builder, in order.
pub data Call : Type 0 where
  start_object end_object start_array end_array append_comma append_colon : Call
  append_text : String → String → Call
  append_number : String → ℕ → Call
  escape_and_append_with_quotes : String → Call

-- simdjson: `none` where the conversion of `parser.parse` to an element throws `simdjson_error`, and
-- the text that the builder holds after its calls.
pub record Simdjson : Type 0 where
  pub parse : Bytes → Option Document
  pub build : List Call → Bytes

-- `TaskParserType`, with one value for all others that the enumeration can hold.
pub data TaskParserType : Type 0 where
  k_json k_protobuf other : TaskParserType

pub data TaskParser : Type 0 where
  json_task_parser : TaskParser

-- The first argument is whether `new (std::nothrow)` gets memory; `none` is the null pointer.
unfoldable pub from_type : Bool → TaskParserType → Option TaskParser
from_type allocates TaskParserType.k_json =
    if allocates then some TaskParser.json_task_parser else none
from_type allocates TaskParserType.k_protobuf = none
from_type allocates TaskParserType.other = none

-- A call of a parser leaves the task, and returns a status, or it throws.
abbrev pub Parsed : Type 0 → Type 0
Parsed A = Outcome (A × ReturnStatus)

-- `data` with its `size`; `none` is a null pointer.
abbrev pub with_document :
    {A : Type 0} → Simdjson → Option Bytes → A → (Document → Parsed A) → Parsed A
with_document lib none task read = Outcome.done (task, ReturnStatus.k_invalid_input)
with_document lib (some []) task read = Outcome.done (task, ReturnStatus.k_invalid_input)
with_document lib (some (x ∷ xs)) task read = elim (lib.parse (x ∷ xs)) [
  | none ↦ Outcome.throws
  | some doc ↦ read doc
]

read_image : ImageTask → Document → Parsed ImageTask
read_image task doc = elim (doc.get_uint64 "modelId") [
  | none ↦ Outcome.done (task, ReturnStatus.k_invalid_input)
  | some value ↦
      if ltb (2 ^ 32 - 1) value
      then Outcome.done (task, ReturnStatus.k_invalid_input)
      else (elim (doc.get_string "imageId") [
        | none ↦ Outcome.done (record task { model_id = value }, ReturnStatus.k_invalid_input)
        | some image_id ↦
            Outcome.done (record { model_id = value; image_id = image_id }, ReturnStatus.k_ok)
      ])
]

unfoldable pub parse_image : Simdjson → Option Bytes → ImageTask → Parsed ImageTask
unfolding read_image
parse_image lib bytes task = with_document lib bytes task (read_image task)

read_ping : PingTask → Document → Parsed PingTask
read_ping task doc = elim (doc.get_string "message") [
  | none ↦ Outcome.done (task, ReturnStatus.k_invalid_input)
  | some message ↦ Outcome.done (record { message = message }, ReturnStatus.k_ok)
]

unfoldable pub parse_ping : Simdjson → Option Bytes → PingTask → Parsed PingTask
unfolding read_ping
parse_ping lib bytes task = with_document lib bytes task (read_ping task)

pub result_calls : ImageTaskResult → List Call
result_calls task =
    Call.start_object
    ∷ Call.append_text "message" task.message
    ∷ Call.append_comma
    ∷ Call.append_number "status" (task_status_code task.status)
    ∷ Call.end_object
    ∷ []

pub ping_calls : PingTask → List Call
ping_calls task = Call.start_object ∷ Call.append_text "message" task.message ∷ Call.end_object ∷ []

-- The loop over `availableProcessors`, from index `i` of `size`.
processor_calls : ℕ → ℕ → List AvailableProcessor → List Call
processor_calls size i [] = []
processor_calls size i (proc ∷ procs) =
    (Call.start_object
      ∷ Call.append_number "index" proc.index
      ∷ Call.append_comma
      ∷ Call.append_text "name" proc.name
      ∷ Call.end_object
      ∷ (if ltb i (size - 1) then Call.append_comma ∷ [] else []))
    ++ processor_calls size (i + 1) procs

pub app_info_calls : AppInfoTask → List Call
unfolding processor_calls
app_info_calls task =
    (Call.start_object
      ∷ Call.append_number "totalCpuThreads" task.total_cpu_threads
      ∷ Call.append_comma
      ∷ Call.escape_and_append_with_quotes "availableProcessors"
      ∷ Call.append_colon
      ∷ Call.start_array
      ∷ processor_calls (length task.available_processors) 0 task.available_processors)
    ++ (Call.end_array ∷ Call.end_object ∷ [])

unfoldable pub serialize_result : Simdjson → ImageTaskResult → Bytes × ReturnStatus
unfolding result_calls
serialize_result lib task = (lib.build (result_calls task), ReturnStatus.k_ok)

unfoldable pub serialize_ping : Simdjson → PingTask → Bytes × ReturnStatus
unfolding ping_calls
serialize_ping lib task = (lib.build (ping_calls task), ReturnStatus.k_ok)

unfoldable pub serialize_app_info : Simdjson → AppInfoTask → Bytes × ReturnStatus
unfolding app_info_calls
serialize_app_info lib task = (lib.build (app_info_calls task), ReturnStatus.k_ok)
