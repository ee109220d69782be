-- ===== src/Service/Process/Sessions.antt =====
-- image-service.hpp: what a call of `processImage` does, on every way out.
use limb_worker.Prelude.{Outcome, ℕ, ◌≡◌, false, none, some, List, [], ◌∷◌, ◌++◌, ◌⊎◌}
use limb_worker.Status.{ReturnStatus}
use limb_worker.Image.Codec.{Container, png_can_decode, jpg_can_decode}
use limb_worker.Image.Factory.{Codec}
use limb_worker.Service.Initializer
use limb_worker.Service.Initializer.{Initializer, contains}
use limb_worker.Service.Initializer.Registration.{Fails}
use limb_worker.Service.Storage
use limb_worker.Service.Process.{ImageTask, World, Effect, Service, Result, is_ok}
use limb_worker.Service.Process.Encodings.{Encoding}

-- What a call leaves: nothing, or one processor's session around the encoder.
pub data Session (world : World) (input : ImageTask) : ReturnStatus → List Effect → Type 0 where
  no_session : (ret : ReturnStatus) → is_ok ret ≡ false → Session world input ret []
  session :
      (p : ℕ) (ret : ReturnStatus) (middle : List Effect)
      → Encoding world input ret middle
      → Session world input ret
          (Effect.acquires_processor p ∷ middle ++ Effect.reclaims_processor p ∷ [])

module _ (world : World) (input : ImageTask) where
  abbrev pub Ended : Service → Service × ReturnStatus → Type 0
  Ended s r =
      (trace : List Effect) × (r.0.effects ≡ s.effects ++ trace) × Session world input r.1 trace

  -- The processor of the container at an address throws, or is undefined.
  abbrev pub ProcessorThrows : ℕ → Type 0
  ProcessorThrows p =
      (world.acquires p ≡ Outcome.throws)
      ⊎ ((pixel : Container) × (world.process p pixel ≡ Outcome.throws))

  abbrev pub ProcessorUndefined : ℕ → Type 0
  ProcessorUndefined p =
      (world.acquires p ≡ Outcome.undefined)
      ⊎ ((pixel : Container) × (world.process p pixel ≡ Outcome.undefined))

  abbrev Processed : ℕ → Service → Result → Type 0
  Processed p s (Outcome.done r) = Ended s r
  Processed p s Outcome.throws = ProcessorThrows p
  Processed p s Outcome.undefined = ProcessorUndefined p

  -- What is true of the ways out: an exception is the map's, or of the `init` of a container that is
  -- not initialised yet, or of the processor; what is undefined is a call through a null container or,
  -- where `NoCodec` holds, through a null codec, or the processor's.
  abbrev pub Accounted : Type 0 → Service → Result → Type 0
  Accounted NoCodec s (Outcome.done r) = Ended s r
  Accounted NoCodec s Outcome.throws =
      (Storage.acquire_container s.provider.upstream input.model_id ≡ none)
      ⊎ Fails world.inits s.provider input.model_id
      ⊎ ((p : ℕ) × (Storage.acquire_container s.provider.upstream input.model_id ≡ some (some p))
          × ProcessorThrows p)
  Accounted NoCodec s Outcome.undefined =
      NoCodec
      ⊎ ((Storage.acquire_container s.provider.upstream input.model_id ≡ some none)
          × (contains input.model_id s.provider.initialized ≡ false))
      ⊎ ((p : ℕ) × (Storage.acquire_container s.provider.upstream input.model_id ≡ some (some p))
          × ProcessorUndefined p)

  abbrev pub NoCodec : Type 0
  NoCodec =
      (png_can_decode (world.get_image input.image_id).1 ≡ false)
      × (jpg_can_decode (world.get_image input.image_id).1 ≡ false)
