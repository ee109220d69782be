-- ===== src/Tasks/Rendering.antt =====
-- json-task-parser.cpp: what the calls of the builder write, and what a parse accepts.

use limb_worker.Prelude.{
  ℕ, ◌+◌, ◌^◌, ◌<◌, ◌≡◌, ◌↔◌, refl, ap, sym, Option, none, some, List, [], ◌∷◌, ◌++◌, map, arith,
  length, Bytes, Outcome, append_assoc, Option-cases, inl, inr,
}
use limb_worker.Status.{ReturnStatus}
use limb_worker.Capabilities.{AvailableProcessor, AppInfoTask}
use limb_worker.Service.Process.{ImageTask}
use limb_worker.Tasks.{Call, Document, Simdjson, parse_image, app_info_calls, processor_calls}

-- The members of an object or an array, with commas between them.
abbrev pub between : List (List Call) → List Call
between [] = []
between (m ∷ []) = m
between (m ∷ n ∷ ms) = m ++ Call.append_comma ∷ between (n ∷ ms)

abbrev pub object : List (List Call) → List Call
object ms = Call.start_object ∷ between ms ++ Call.end_object ∷ []

abbrev pub array : List (List Call) → List Call
array ms = Call.start_array ∷ between ms ++ Call.end_array ∷ []

abbrev pub processor_object : AvailableProcessor → List Call
processor_object proc =
    object
      ((Call.append_number "index" proc.index ∷ []) ∷ (Call.append_text "name" proc.name ∷ []) ∷ [])

processor_calls-between :
    (procs : List AvailableProcessor) (size i : ℕ)
    → i + length procs ≡ size
    → processor_calls size i procs ≡ between (map processor_object procs)
unfolding processor_calls
processor_calls-between [] size i e = refl
processor_calls-between (p ∷ []) size i e = ground arith
processor_calls-between (p ∷ q ∷ ps) size i e =
    ground (arith, processor_calls-between (q ∷ ps) size (i + 1))

-- The calls for the report write one JSON object: the number of threads, and the array of the
-- processors in their order, each an object with its index and its name, with a comma between two
-- members and nowhere else.
pub app_info_calls_lem :
    (task : AppInfoTask)
    → app_info_calls task
      ≡ object (
          (Call.append_number "totalCpuThreads" task.total_cpu_threads ∷ [])
          ∷ (Call.escape_and_append_with_quotes "availableProcessors"
              ∷ Call.append_colon
              ∷ array (map processor_object task.available_processors))
          ∷ [])
unfolding app_info_calls
app_info_calls_lem task =
    rw
      (processor_calls-between task.available_processors (length task.available_processors) 0
        (omega arith))
      (ap
        (λ zs.
          Call.start_object
          ∷ Call.append_number "totalCpuThreads" task.total_cpu_threads
          ∷ Call.append_comma
          ∷ Call.escape_and_append_with_quotes "availableProcessors"
          ∷ Call.append_colon
          ∷ Call.start_array
          ∷ zs)
        (sym (
          append_assoc (between (map processor_object task.available_processors))
            (Call.end_array ∷ []) (Call.end_object ∷ []))))

abbrev Accepted : Simdjson → Option Bytes → ImageTask → Type 0
Accepted lib bytes task =
    (x : ℕ) × (xs : Bytes) × (doc : Document) × (bytes ≡ some (x ∷ xs))
    × (lib.parse (x ∷ xs) ≡ some doc)
    × (doc.get_uint64 "modelId" ≡ some task.model_id)
    × (task.model_id < 2 ^ 32)
    × (doc.get_string "imageId" ≡ some task.image_id)

parse_image-Accepted :
    (lib : Simdjson) (bytes : Option Bytes) (before task : ImageTask)
    → parse_image lib bytes before ≡ Outcome.done (task, ReturnStatus.k_ok)
    → Accepted lib bytes task
unfolding parse_image
parse_image-Accepted lib none before task h = absurd (ground arith)
parse_image-Accepted lib (some []) before task h = absurd (ground arith)
parse_image-Accepted lib (some (x ∷ xs)) before task h = elim (Option-cases (lib.parse (x ∷ xs))) [
  | inl e ↦ absurd (ground arith)
  | inr (doc, e) ↦ (x, xs, doc, refl, e, ground arith, ground arith, ground arith)
]

-- An image task is read exactly from bytes that are there and not empty, and whose document has a
-- `modelId` below 2 ^ 32 and an `imageId`; these two are then the task.
pub parse_image_iff :
    (lib : Simdjson) (bytes : Option Bytes) (before task : ImageTask)
    → (parse_image lib bytes before ≡ Outcome.done (task, ReturnStatus.k_ok)) ↔ (
        (x : ℕ) × (xs : Bytes) × (doc : Document) × (bytes ≡ some (x ∷ xs))
        × (lib.parse (x ∷ xs) ≡ some doc)
        × (doc.get_uint64 "modelId" ≡ some task.model_id)
        × (task.model_id < 2 ^ 32)
        × (doc.get_string "imageId" ≡ some task.image_id))
unfolding parse_image
parse_image_iff lib bytes before task =
    (parse_image-Accepted lib bytes before task, λ (x, xs, doc, e, p, u, small, i). ground arith)
