-- ===== src/App.antt =====
-- include/limb-app.h: `App`, over the loader's containers, the service's map and the report.
pub mod Lifecycle
pub mod Shutdown
mod Tests
use Prim.Native.String.{String}
use limb_worker.Prelude.{
  Outcome, ◌>>=◌, ℕ, Bool, zero, suc, ◌+◌, Option, none, some, List, [], ◌∷◌, ◌++◌, ◌==◌,
  if◌then◌else◌,
}
use limb_worker.Status.{ReturnStatus}
use limb_worker.Capabilities
use limb_worker.Capabilities.{Capabilities, AppInfoTask}
use limb_worker.Service.Initializer
use limb_worker.Service.Initializer.{Initializer, Event}

-- What the loader offers: its modules' names, in order, and what `allocateContainer(i)` returns
-- (`none` is the null pointer); and of the container at an address whether its `init` returns or throws.
pub record Modules : Type 0 where
  pub count : ℕ
  pub module_name : ℕ → String
  pub allocate : ℕ → Option ℕ
  pub inits : ℕ → Bool

-- `live` are the containers in the loader's `m_processors`.
pub record App : Type 0 where
  pub live : List ℕ
  pub media_service : Initializer
  pub cap_provider : Capabilities

-- `m_processors.find(container)` and `m_processors.erase(it)`.
pub remove_live : ℕ → List ℕ → List ℕ
remove_live p [] = []
remove_live p (x ∷ xs) = if x == p then xs else x ∷ remove_live p xs

pub is_live : ℕ → List ℕ → Option ℕ
is_live p [] = none
is_live p (x ∷ xs) = if x == p then some x else is_live p xs

pub log_event : App → Event → App
log_event a e = record a {
  media_service = record (a.media_service) { log = a.media_service.log ++ e ∷ [] };
}

-- `ProcessorLoader::destroyContainer`: an address that is not in the map is passed over.
pub destroy_container : App → ℕ → App
unfolding is_live remove_live log_event
destroy_container a p = elim (is_live p a.live) [
  | none ↦ a
  | some _ ↦ log_event (record a { live = remove_live p a.live }) (Event.deallocates p)
]

-- `loaderDeleter`.
pub loader_deleter : App → ℕ → App
unfolding log_event destroy_container
loader_deleter a p = destroy_container (log_event a (Event.deinits p)) p

module _ (m : Modules) where
  -- The loop of `init`, with `n` rounds left, from index `i`. The result of `addAvailableProcessor` is
  -- not read, so the test behind it sees the `kOk` of `addContainer`.
  pub init_from : ℕ → ℕ → App → App × ReturnStatus
  unfolding loader_deleter
  init_from zero i a = (a, ReturnStatus.k_ok)
  init_from (suc n) i a = elim (m.allocate i) [
    | none ↦ (a, ReturnStatus.k_invalid_input)
    | some p ↦
        let b = record a { live = p ∷ a.live } in
        let (service, err) = Initializer.add_container b.media_service i (some p) in
        let c = record b { media_service = service } in
        let (caps, _) = Capabilities.add_available_processor c.cap_provider (m.module_name i) i in
        elim err [
          | ReturnStatus.k_ok ↦ init_from n (i + 1) (record c { cap_provider = caps })
          | other ↦ (loader_deleter c p, other)
        ]
  ]

  pub init : App → App × ReturnStatus
  unfolding init_from
  init a = init_from m.count 0 a

  -- The loop of `deinit`. `getContainer` acquires the container; its deleter reclaims it, which does
  -- nothing.
  pub deinit_from : ℕ → ℕ → App → Outcome App
  unfolding destroy_container
  deinit_from zero i a = Outcome.done a
  deinit_from (suc n) i a = elim (Initializer.acquire_container m.inits a.media_service i) [
    | Outcome.throws ↦ Outcome.throws
    | Outcome.undefined ↦ Outcome.undefined
    | Outcome.done (s, none) ↦ deinit_from n (i + 1) (record a { media_service = s })
    | Outcome.done (s, some p) ↦
        deinit_from n (i + 1) (destroy_container (record a { media_service = s }) p)
  ]

  pub deinit : App → Outcome App
  unfolding deinit_from
  deinit a = do
    b ← deinit_from (Initializer.processor_count a.media_service) 0 a
    let c = record b { cap_provider = Capabilities.clear b.cap_provider }
    s ← Initializer.clear c.media_service
    Outcome.done (record c { media_service = s })

pub get_app_info : App → AppInfoTask
get_app_info a = Capabilities.get_app_info a.cap_provider
