-- ===== src/Processors/Realesrgan/Container.antt =====
-- processors/realesrgan/realesrgan-processor.cpp: what the container and the processor take from ncnn
-- and give back.
use limb_worker.Prelude.{
  ℕ, zero, suc, ◌+◌, Bool, true, false, not, ◌&&◌, Option, none, some, List, [], ◌∷◌, ◌++◌, ◌≡◌,
  ◌↔◌, refl, ◌∙◌, arith, ◌==◌, if◌then◌else◌,
}
use limb_worker.Status.{ReturnStatus}

-- `bicubic` is a layer that scales by the factor.
pub data Resource : Type 0 where
  gpu_instance net preproc postproc : Resource
  bicubic : ℕ → Resource

abbrev number : Resource → ℕ
number Resource.gpu_instance = 0
number Resource.net = 1
number Resource.preproc = 2
number Resource.postproc = 3
number (Resource.bicubic factor) = 4 + factor

pub data Stage : Type 0 where
  before after : Stage

-- The shader's variants: with test-time augmentation, and by the network's storage.
pub data Storage : Type 0 where
  int8s fp16s plain : Storage

pub data Event : Type 0 where
  takes frees : Resource → Event
  sets_device loads_param loads_model : Event
  creates_shader : Stage → Bool → Storage → Event
  creates_pipeline destroys_pipeline : ℕ → Event

abbrev drop_one : Resource → List Resource → Option (List Resource)
drop_one r [] = none
drop_one r (x ∷ xs) =
    if number x == number r
    then some xs
    else (elim (drop_one r xs) [ none ↦ none | some ys ↦ some (x ∷ ys) ])

-- What is held after the events: `none` where something is given back that is not held.
abbrev pub held : List Resource → List Event → Option (List Resource)
held rs [] = some rs
held rs (Event.takes r ∷ es) = held (r ∷ rs) es
held rs (Event.frees r ∷ es) = elim (drop_one r rs) [ none ↦ none | some rest ↦ held rest es ]
held rs (Event.sets_device ∷ es) = held rs es
held rs (Event.loads_param ∷ es) = held rs es
held rs (Event.loads_model ∷ es) = held rs es
held rs (Event.creates_shader stage tta storage ∷ es) = held rs es
held rs (Event.creates_pipeline factor ∷ es) = held rs es
held rs (Event.destroys_pipeline factor ∷ es) = held rs es

-- The container's field, as whether it is not null.
pub record Container : Type 0 where
  pub net : Bool

abbrev pub fresh_container : Container
fresh_container = record { net = false }

-- `delete net`, in `deinit` and in the destructor.
abbrev free_net : Container → List Event
free_net c = if c.net then Event.frees Resource.net ∷ [] else []

pub delete_container : Container → List Event
delete_container c = free_net c

pub deinit : Container → Container × List Event × ReturnStatus
deinit c = (
  record { net = false },
  free_net c ++ (Event.frees Resource.gpu_instance ∷ []),
  ReturnStatus.k_ok,
)

-- `param` and `model` say whether the files load. `new` throws where it fails, so the network is never
-- null after it; the options that `init` sets are `use_fp16_storage` and `use_int8_storage` below.
pub init : Bool → Bool → Container → Container × List Event × ReturnStatus
unfolding deinit
init param model c =
    let opened : Container = record { net = true } in
    let (closed, freed, ret) = deinit opened in
    let start =
      Event.takes Resource.gpu_instance
      ∷ Event.takes Resource.net
      ∷ Event.sets_device
      ∷ Event.loads_param
      ∷ [] in
    if not param
    then (closed, start ++ freed, ReturnStatus.k_aborted)
    else if not model
    then (closed, start ++ (Event.loads_model ∷ freed), ReturnStatus.k_aborted)
    else (opened, start ++ (Event.loads_model ∷ []), ReturnStatus.k_ok)

-- The shader that the processor's constructor picks.
abbrev pub storage : Bool → Bool → Storage
storage fp16 int8 =
    if fp16 && int8 then Storage.int8s else if fp16 then Storage.fp16s else Storage.plain

abbrev add_bicubic : ℕ → List Event
add_bicubic factor = Event.takes (Resource.bicubic factor) ∷ Event.creates_pipeline factor ∷ []

abbrev free_bicubic : ℕ → List Event
free_bicubic factor = Event.destroys_pipeline factor ∷ Event.frees (Resource.bicubic factor) ∷ []

-- The constructor of the processor, by `tta_mode` and the network's storage options.
pub construct : Bool → Bool → Bool → List Event
construct tta fp16 int8 =
    Event.takes Resource.preproc
    ∷ Event.takes Resource.postproc
    ∷ Event.creates_shader Stage.before tta (storage fp16 int8)
    ∷ Event.creates_shader Stage.after tta (storage fp16 int8)
    ∷ (add_bicubic 2 ++ (add_bicubic 3 ++ add_bicubic 4))

-- The destructor of a processor that is constructed, so none of its fields is null.
pub reclaim_processor : List Event
reclaim_processor =
    Event.frees Resource.preproc
    ∷ Event.frees Resource.postproc
    ∷ (free_bicubic 2 ++ (free_bicubic 3 ++ free_bicubic 4))

-- `tryAcquireProcessor`: `none` without a network. `init` has set both storage options.
pub try_acquire_processor : Container → Option (List Event)
unfolding construct
try_acquire_processor c = if not c.net then none else some (construct false true true)

-- For any outcome of the two loads: `init` of a new container returns kOk exactly if both succeed, and
-- then a processor can be acquired. If it fails, all is given back and none can be acquired; if it
-- succeeds, the network and the device instance are held, and `deinit` with the destructor after it
-- gives each back once.
pub deinit-init :
    (param model : Bool)
    → let (c, events, ret) = init param model fresh_container in
      let (c', freed, ret') = deinit c in
      ((ret ≡ ReturnStatus.k_ok) ↔ ((param ≡ true) × (model ≡ true)))
      × (held [] events
          ≡ some (if param && model then Resource.net ∷ Resource.gpu_instance ∷ [] else []))
      × (try_acquire_processor c
          ≡ (if param && model then some (construct false true true) else none))
      × (held [] (events ++ (freed ++ delete_container c'))
          ≡ (if param && model then some [] else none))
unfolding init deinit delete_container try_acquire_processor
deinit-init param model = ground arith

held-construct :
    (tta fp16 int8 : Bool) (rs : List Resource) (es : List Event)
    → held rs (construct tta fp16 int8 ++ (reclaim_processor ++ es)) ≡ held rs es
unfolding construct reclaim_processor
held-construct tta fp16 int8 rs es = refl

-- `n` processors, each acquired and reclaimed.
abbrev pub uses : Bool → Bool → Bool → ℕ → List Event
uses tta fp16 int8 zero = []
uses tta fp16 int8 (suc n) = construct tta fp16 int8 ++ (reclaim_processor ++ uses tta fp16 int8 n)

-- For any mode and storage options of the network, and any number of processors that are acquired and
-- reclaimed one after the other: every pipeline and layer is given back once, and what was held before
-- is held after.
pub uses-held :
    (tta fp16 int8 : Bool) (n : ℕ) (rs : List Resource) → held rs (uses tta fp16 int8 n) ≡ some rs
uses-held tta fp16 int8 zero rs = refl
uses-held tta fp16 int8 (suc n) rs =
    held-construct tta fp16 int8 rs (uses tta fp16 int8 n) ∙ uses-held tta fp16 int8 n rs
