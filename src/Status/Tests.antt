-- ===== src/Status/Tests.antt =====
-- The messages of three codes: `kIncomplete` has none in the table.
use limb_worker.Prelude.{◌≡◌, refl, none, some}
use limb_worker.Status.{ReturnStatus, get_error_message}

messages :
    (get_error_message ReturnStatus.k_ok ≡ some "Ok")
    × (get_error_message ReturnStatus.k_invalid_input ≡ some "Invalid input")
    × (get_error_message ReturnStatus.k_incomplete ≡ none)
unfolding get_error_message
messages = (refl, refl, refl)
