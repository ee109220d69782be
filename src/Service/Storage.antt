-- ===== src/Service/Storage.antt =====
-- include/image-service/processor-storage.hpp: `ProcessorStorage`, a map from index to container.
-- A container is known by its address; `none` is the null pointer.
pub mod Keys
use limb_worker.Prelude.{
  ℕ, Bool, true, false, not, ◌||◌, Option, none, some, List, [], ◌∷◌, ◌==◌, if◌then◌else◌, length,
}
use limb_worker.Status.{ReturnStatus}

-- `m_containers`, as the list of its entries.
abbrev pub Storage : Type 0
Storage = List (ℕ × Option ℕ)

-- `m_containers.find(index)`; the inner option is the stored pointer.
unfoldable pub find : ℕ → Storage → Option (Option ℕ)
find index [] = none
find index ((i, container) ∷ s) = if i == index then some container else find index s

pub erase : ℕ → Storage → Storage
erase index [] = []
erase index ((i, container) ∷ s) = if i == index then s else (i, container) ∷ erase index s

unfoldable pub add_container : Storage → ℕ → Option ℕ → Storage × ReturnStatus
add_container s index container = elim (find index s) [
  | some _ ↦ (s, ReturnStatus.k_already_exists)
  | none ↦ ((index, container) ∷ s, ReturnStatus.k_ok)
]

-- `m_containers.erase(index) > 0`.
pub remove_container : Storage → ℕ → Storage × Bool
remove_container s index = elim (find index s) [
  | some _ ↦ (erase index s, true)
  | none ↦ (s, false)
]

-- `m_containers.at(index)`; `none` is `std::out_of_range`.
unfoldable pub acquire_container : Storage → ℕ → Option (Option ℕ)
acquire_container s index = find index s

-- `reclaimContainer` has an empty body.
unfoldable pub reclaim_container : Storage → Option ℕ → Storage
reclaim_container s container = s

unfoldable pub clear : Storage → Storage
clear s = []

unfoldable pub processor_count : Storage → ℕ
processor_count s = length s
