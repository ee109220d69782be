-- ===== src/Status.antt =====
-- include/utils/status.h: the return codes, and the table of their messages.
mod Tests
use Prim.Native.String.{String}
use limb_worker.Prelude.{ℕ, Option, List, [], ◌∷◌, get_elem?}

-- `liret`.
pub data ReturnStatus : Type 0 where
  k_ok k_unknown k_not_found k_already_exists k_aborted k_unimplemented k_uninitialized :
      ReturnStatus
  k_invalid_input k_incomplete k_buffer_too_small k_out_of_memory : ReturnStatus

-- `static_cast<int>`.
abbrev pub status_code : ReturnStatus → ℕ
status_code ReturnStatus.k_ok = 0
status_code ReturnStatus.k_unknown = 1
status_code ReturnStatus.k_not_found = 2
status_code ReturnStatus.k_already_exists = 3
status_code ReturnStatus.k_aborted = 4
status_code ReturnStatus.k_unimplemented = 5
status_code ReturnStatus.k_uninitialized = 6
status_code ReturnStatus.k_invalid_input = 7
status_code ReturnStatus.k_incomplete = 8
status_code ReturnStatus.k_buffer_too_small = 9
status_code ReturnStatus.k_out_of_memory = 10

abbrev pub return_status_resolver : List String
return_status_resolver =
    "Ok" ∷ "Unknown error" ∷ "Not Found" ∷ "Already Exists" ∷ "Aborted" ∷ "Unimplemented"
    ∷ "Uninitialized" ∷ "Invalid input" ∷ []

-- `none` is a read behind the end of the table.
unfoldable pub get_error_message : ReturnStatus → Option String
get_error_message ret_status = get_elem? return_status_resolver (status_code ret_status)
