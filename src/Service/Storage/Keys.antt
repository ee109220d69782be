-- ===== src/Service/Storage/Keys.antt =====
-- processor-storage.hpp: the map laws.
use limb_worker.Prelude.{
  ℕ, ◌+◌, ◌≡◌, ◌≢◌, ◌⊎◌, refl, true, Option, none, some, [], ◌∷◌, arith, ◌==◌, if◌then◌else◌,
  length,
}
use limb_worker.Status.{ReturnStatus}
use limb_worker.Service.Storage.{
  Storage, find, erase, add_container, remove_container, acquire_container, processor_count,
}

-- No index stands twice.
abbrev pub Keyed : Storage → Type 0
Keyed [] = Unit {0}
Keyed ((i, c) ∷ s) = (find i s ≡ none) × Keyed s

find-erase_other : (i j : ℕ) (s : Storage) → i ≢ j → find j (erase i s) ≡ find j s
unfolding find erase
find-erase_other i j [] h = refl
find-erase_other i j ((k, c) ∷ s) h = ground (arith, find-erase_other i j s)

find-erase_self : (i : ℕ) (s : Storage) → Keyed s → find i (erase i s) ≡ none
unfolding find erase
find-erase_self i [] h = refl
find-erase_self i ((k, c) ∷ s) h = ground (arith, find-erase_self i s)

find-erase-none : (i j : ℕ) (s : Storage) → find j s ≡ none → find j (erase i s) ≡ none
unfolding find erase
find-erase-none i j [] h = refl
find-erase-none i j ((k, c) ∷ s) h = ground (arith, find-erase-none i j s)

Keyed-erase : (i : ℕ) (s : Storage) → Keyed s → Keyed (erase i s)
unfolding find erase
Keyed-erase i [] h = tt
Keyed-erase i ((k, c) ∷ s) h = ground (arith, Keyed-erase i s, find-erase-none i k s)

abbrev present : Option (Option ℕ) → ℕ
present none = 0
present (some c) = 1

length-erase : (i : ℕ) (s : Storage) → length (erase i s) + present (find i s) ≡ length s
unfolding find erase
length-erase i [] = refl
length-erase i ((k, c) ∷ s) = ground (arith, length-erase i s)

-- The two updates keep the indices distinct.
pub update-Keyed :
    (s : Storage) (i : ℕ) (c : Option ℕ)
    → Keyed s
    → Keyed (add_container s i c).0 × Keyed (remove_container s i).0
unfolding add_container remove_container
update-Keyed s i c h = ground (arith, Keyed-erase i s)

-- Adding a container under a free index returns kOk, stores it, counts one more, and removing the
-- index again gives the map back; under a taken index it returns kAlreadyExists and changes nothing.
pub add_container-remove_container :
    (s : Storage) (i : ℕ) (c : Option ℕ)
    → let (s', ret) = add_container s i c in
      ((acquire_container s i ≡ none)
        × (ret ≡ ReturnStatus.k_ok)
        × (acquire_container s' i ≡ some c)
        × (processor_count s' ≡ processor_count s + 1)
        × (remove_container s' i ≡ (s, true)))
      ⊎ ((acquire_container s i ≢ none) × (ret ≡ ReturnStatus.k_already_exists) × (s' ≡ s))
unfolding add_container remove_container acquire_container processor_count find erase
add_container-remove_container s i c = ground arith

-- With distinct indices, removal takes out exactly the one index, and says whether it was there.
pub remove_container_lem :
    (s : Storage) (i j : ℕ)
    → Keyed s
    → let (s', removed) = remove_container s i in
      (acquire_container s' j ≡ (if i == j then none else acquire_container s j))
      × (processor_count s' + (if removed then 1 else 0) ≡ processor_count s)
unfolding remove_container acquire_container processor_count
remove_container_lem s i j h =
    ground (arith, find-erase_other i j s, find-erase_self i s h, length-erase i s)

pub acquire_container-add_container :
    (s : Storage) (i j : ℕ) (c : Option ℕ)
    → acquire_container s i ≡ none
    → (acquire_container (add_container s i c).0 j
        ≡ (if i == j then some c else acquire_container s j))
      × (processor_count (add_container s i c).0 ≡ processor_count s + 1)
      × ((add_container s i c).1 ≡ ReturnStatus.k_ok)
unfolding add_container acquire_container processor_count find
acquire_container-add_container s i j c h = ground arith

pub find-nil : (i : ℕ) → find i [] ≡ none
unfolding find
find-nil i = refl
