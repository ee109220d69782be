-- ===== src/Capabilities/Report.antt =====
-- capabilities-provider.cpp: no two reported processors have one index, and what each call does to
-- the report.
use Prim.Native.String.{String}
use limb_worker.Prelude.{
  ℕ, ◌≡◌, refl, true, false, Option, none, some, List, [], ◌∷◌, ◌++◌, arith, ◌==◌, if◌then◌else◌,
}
use limb_worker.Status.{ReturnStatus}
use limb_worker.Capabilities.{
  AvailableProcessor, Capabilities, has_index, erase_index, add_available_processor,
  remove_available_processor, get_app_info,
}

-- No processor has the index of one before it.
abbrev pub Distinct : List AvailableProcessor → Type 0
unfolding has_index
Distinct [] = Unit {0}
Distinct (proc ∷ procs) = (has_index proc.index procs ≡ false) × Distinct procs

-- The name that is reported for an index.
pub name_of : ℕ → List AvailableProcessor → Option String
name_of index [] = none
name_of index (proc ∷ procs) = if proc.index == index then some proc.name else name_of index procs

has_index-append :
    (i : ℕ) (xs : List AvailableProcessor) (p : AvailableProcessor)
    → has_index i (xs ++ p ∷ []) ≡ (if has_index i xs then true else p.index == i)
unfolding has_index
has_index-append i [] p = ground arith
has_index-append i (x ∷ xs) p = ground (arith, has_index-append i xs p)

Distinct-append :
    (xs : List AvailableProcessor) (p : AvailableProcessor)
    → has_index p.index xs ≡ false
    → Distinct xs
    → Distinct (xs ++ p ∷ [])
unfolding has_index
Distinct-append [] p h d = (refl, tt)
Distinct-append (x ∷ xs) p h d = ground (arith, Distinct-append xs p, has_index-append x.index xs p)

has_index-erase_index :
    (i j : ℕ) (xs : List AvailableProcessor)
    → has_index j xs ≡ false
    → has_index j (erase_index i xs) ≡ false
unfolding has_index erase_index
has_index-erase_index i j [] h = refl
has_index-erase_index i j (x ∷ xs) h = ground (arith, has_index-erase_index i j xs)

Distinct-erase_index :
    (i : ℕ) (xs : List AvailableProcessor) → Distinct xs → Distinct (erase_index i xs)
unfolding has_index erase_index
Distinct-erase_index i [] d = tt
Distinct-erase_index i (x ∷ xs) d =
    ground (arith, Distinct-erase_index i xs, has_index-erase_index i x.index xs)

name_of-append :
    (i : ℕ) (xs : List AvailableProcessor) (p : AvailableProcessor)
    → has_index p.index xs ≡ false
    → name_of i (xs ++ p ∷ []) ≡ (if p.index == i then some p.name else name_of i xs)
unfolding has_index name_of
name_of-append i [] p h = refl
name_of-append i (x ∷ xs) p h = ground (arith, name_of-append i xs p)

name_of_absent :
    (i : ℕ) (xs : List AvailableProcessor) → has_index i xs ≡ false → name_of i xs ≡ none
unfolding has_index name_of
name_of_absent i [] h = refl
name_of_absent i (x ∷ xs) h = ground (arith, name_of_absent i xs)

name_of-erase_index :
    (i j : ℕ) (xs : List AvailableProcessor)
    → Distinct xs
    → name_of j (erase_index i xs) ≡ (if i == j then none else name_of j xs)
unfolding has_index name_of erase_index
name_of-erase_index i j [] d = ground arith
name_of-erase_index i j (x ∷ xs) d =
    ground (arith, name_of-erase_index i j xs, name_of_absent x.index xs)

-- `addAvailableProcessor` and `removeAvailableProcessor` keep the reported indices distinct.
pub update-Distinct :
    (c : Capabilities) (name : String) (i : ℕ)
    → Distinct c.available_processors
    → Distinct (add_available_processor c name i).0.available_processors
      × Distinct (remove_available_processor c i).0.available_processors
unfolding add_available_processor remove_available_processor
update-Distinct c name i d = ground (
  arith,
  Distinct-append c.available_processors (record { name = name; index = i }),
  Distinct-erase_index i c.available_processors,
)

-- After `addAvailableProcessor` of a name under an index: if the index was unused, the call returns
-- kOk and that index alone changes, to the name; if it was in use, the call returns kAlreadyExists
-- and no reported name changes.
pub add_available_processor_lem :
    (c : Capabilities) (name : String) (i j : ℕ)
    → let (c', ret) = add_available_processor c name i in
      let used = has_index i c.available_processors in
      (ret ≡ (if used then ReturnStatus.k_already_exists else ReturnStatus.k_ok))
      × (name_of j (get_app_info c').available_processors ≡ (
          if used
          then name_of j c.available_processors
          else if i == j
          then some name
          else name_of j c.available_processors))
unfolding add_available_processor get_app_info
add_available_processor_lem c name i j =
    ground (arith, name_of-append j c.available_processors (record { name = name; index = i }))

-- With distinct indices, `removeAvailableProcessor` returns kOk exactly if the index was in use, and
-- then it is reported no more; the names of all other indices stay.
pub remove_available_processor_lem :
    (c : Capabilities) (i j : ℕ)
    → Distinct c.available_processors
    → let (c', ret) = remove_available_processor c i in
      (ret ≡ (
        if has_index i c.available_processors then ReturnStatus.k_ok else ReturnStatus.k_not_found))
      × (name_of j (get_app_info c').available_processors
          ≡ (if i == j then none else name_of j c.available_processors))
unfolding remove_available_processor get_app_info
remove_available_processor_lem c i j d = ground (
  arith,
  name_of-erase_index i j c.available_processors d,
  name_of_absent i c.available_processors,
)

pub has_index-add_available_processor :
    (c : Capabilities) (name : String) (i j : ℕ)
    → has_index i c.available_processors ≡ false
    → has_index j (add_available_processor c name i).0.available_processors
      ≡ (if has_index j c.available_processors then true else i == j)
unfolding add_available_processor
has_index-add_available_processor c name i j h =
    ground (arith, has_index-append j c.available_processors (record { name = name; index = i }))

pub has_index-nil : (i : ℕ) → has_index i [] ≡ false
unfolding has_index
has_index-nil i = refl
