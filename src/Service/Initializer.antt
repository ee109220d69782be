-- ===== src/Service/Initializer.antt =====
-- include/image-service/processor-initializer.hpp: `ProcessorInitializer<ProcessorStorage>`, which
-- calls `init` on a container when it is first acquired and `deinit` when it is removed.
pub mod Registration
use limb_worker.Prelude.{
  ℕ, Bool, true, false, ◌||◌, Option, none, some, List, [], ◌∷◌, ◌++◌, ◌==◌, if◌then◌else◌, Outcome,
  ◌>>=◌,
}
use limb_worker.Status.{ReturnStatus}
use limb_worker.Service.Storage
use limb_worker.Service.Storage.{Storage}

-- The calls of container methods, by address.
pub data Event : Type 0 where
  inits deinits deallocates : ℕ → Event

-- `initialized` is the set `m_initializedMap` in its order; `log` grows at its end.
pub record Initializer : Type 0 where
  pub initialized : List ℕ
  pub upstream : Storage
  pub log : List Event

unfoldable pub fresh : Initializer
fresh = record { initialized = []; upstream = []; log = [] }

unfoldable pub contains : ℕ → List ℕ → Bool
contains index [] = false
contains index (i ∷ is) = i == index || contains index is

-- `std::set::erase`.
pub erase_index : ℕ → List ℕ → List ℕ
erase_index index [] = []
erase_index index (i ∷ is) = if i == index then is else i ∷ erase_index index is

unfoldable pub add_container : Initializer → ℕ → Option ℕ → Initializer × ReturnStatus
add_container s index container =
    let (upstream, ret) = Storage.add_container s.upstream index container in
    (record s { upstream = upstream }, ret)

-- `container->init()`, its result unused; `returns` says whether it returns, by the address.
unfoldable pub init_container : (ℕ → Bool) → Initializer → Option ℕ → Outcome Initializer
init_container returns s none = Outcome.undefined
init_container returns s (some p) =
    if returns p
    then Outcome.done (record s { log = s.log ++ Event.inits p ∷ [] })
    else Outcome.throws

-- The set is a tree; the model inserts at the front, and no result depends on the place.
unfoldable pub acquire_container : (ℕ → Bool) → Initializer → ℕ → Outcome (Initializer × Option ℕ)
unfolding contains init_container
acquire_container returns s index = elim (Storage.acquire_container s.upstream index) [
  | none ↦ Outcome.throws
  | some container ↦
      if contains index s.initialized
      then Outcome.done (s, container)
      else (init_container returns (record s { initialized = index ∷ s.initialized }) container
          >>= λ s'. Outcome.done (s', container))
]

-- `deinitContainer`; `reclaimContainer` is the upstream's, and does nothing.
pub deinit_container : Initializer → ℕ → Outcome Initializer
deinit_container s index =
    if contains index s.initialized
    then elim (Storage.acquire_container s.upstream index) [
      | none ↦ Outcome.throws
      | some none ↦ Outcome.done s
      | some (some p) ↦ Outcome.done (record {
        initialized = erase_index index s.initialized;
        upstream = Storage.reclaim_container s.upstream (some p);
        log = s.log ++ Event.deinits p ∷ [];
      })
    ]
    else Outcome.done s

unfoldable pub remove_container : Initializer → ℕ → Outcome (Initializer × Bool)
unfolding deinit_container
remove_container s index = do
  s' ← deinit_container s index
  let (upstream, removed) = Storage.remove_container s'.upstream index
  Outcome.done (record s' { upstream = upstream }, removed)

-- The range-for of `clear` over `m_initializedMap`. Where `deinitContainer` has erased the index
-- under the iterator, the loop goes on from an erased element: that is undefined.
pub clear_from : List ℕ → Initializer → Outcome Initializer
clear_from [] s = Outcome.done s
clear_from (index ∷ rest) s = elim (deinit_container s index) [
  | Outcome.throws ↦ Outcome.throws
  | Outcome.undefined ↦ Outcome.undefined
  | Outcome.done s' ↦
      let later = clear_from rest s' in
      if contains index s'.initialized then later else Outcome.undefined
]

pub clear : Initializer → Outcome Initializer
unfolding clear_from deinit_container contains erase_index
clear s = do
  s' ← clear_from s.initialized s
  Outcome.done (record s' { upstream = Storage.clear s'.upstream })

unfoldable pub processor_count : Initializer → ℕ
processor_count s = Storage.processor_count s.upstream
