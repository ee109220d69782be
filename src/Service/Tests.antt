-- ===== src/Service/Tests.antt =====
-- The registered containers and `processImage` at concrete inputs.
use limb_worker.Prelude.{Outcome, ◌+◌, ◌≡◌, ◌≢◌, ◌⊎◌, refl, true, none, some, [], ◌∷◌, ◌++◌}
use limb_worker.Status.{ReturnStatus}
use limb_worker.Image.Codec.{png_signature, Libraries}
use limb_worker.Service.Storage
use limb_worker.Service.Storage.{Storage, processor_count, remove_container, find}
use limb_worker.Service.Storage.Keys.{Keyed, add_container-remove_container}
use limb_worker.Service.Initializer.{
  Initializer, Event, acquire_container, contains, init_container, clear,
}
use limb_worker.Service.Initializer.Registration.{Registered, clear-defined}
use limb_worker.Service.Process.{ImageTask, World, Service}

abbrev two_containers : Storage
two_containers = (4, some 40) ∷ (2, some 20) ∷ []

two_containers-Keyed : Keyed two_containers
unfolding find
two_containers-Keyed = (refl, (refl, tt))

add_container_example :
    let (s', ret) = Storage.add_container two_containers 7 (some 70) in
    ((Storage.acquire_container two_containers 7 ≡ none)
      × (ret ≡ ReturnStatus.k_ok)
      × (Storage.acquire_container s' 7 ≡ some (some 70))
      × (processor_count s' ≡ processor_count two_containers + 1)
      × (remove_container s' 7 ≡ (two_containers, true)))
    ⊎ ((Storage.acquire_container two_containers 7 ≢ none)
        × (ret ≡ ReturnStatus.k_already_exists)
        × (s' ≡ two_containers))
add_container_example = add_container-remove_container two_containers 7 (some 70)

-- Container 4 is initialised, container 2 not yet.
abbrev one_initialized : Initializer
one_initialized = record { initialized = 4 ∷ []; upstream = two_containers; log = [] }

one_initialized-Registered : Registered two_containers (4 ∷ [])
unfolding Storage.acquire_container find contains
one_initialized-Registered = ((40, refl), refl, tt)

clear-defined_example :
    ((one_initialized.initialized ≡ [])
      × (clear one_initialized ≡ Outcome.done (record one_initialized { upstream = [] })))
    ⊎ ((one_initialized.initialized ≢ []) × (clear one_initialized ≡ Outcome.undefined))
clear-defined_example = clear-defined one_initialized one_initialized-Registered

abbrev both_initialized : Initializer
both_initialized = record {
  initialized = 2 ∷ 4 ∷ [];
  upstream = two_containers;
  log = Event.inits 20 ∷ [];
}

acquired :
    acquire_container (λ p. true) one_initialized 2 ≡ Outcome.done (both_initialized, some 20)
unfolding acquire_container contains init_container Storage.acquire_container find
acquired = refl

-- Every call of the outside succeeds, and every processor is free.
abbrev libraries : Libraries
libraries = record {
  stb_load = λ bytes. some (record { pixels = 1 ∷ 2 ∷ 3 ∷ []; w = 1; h = 1; c = 3 });
  stb_write_png = λ pixels w h c. some (png_signature ++ pixels);
  tj_header = λ bytes. none;
  new_bytes = λ size. true;
  tj_decompress = λ bytes w h c. none;
  tj_compress = λ pixels w h rgb. none;
}

abbrev world : World
world = record {
  get_image = λ id. (ReturnStatus.k_ok, png_signature);
  update_image = λ id bytes. ReturnStatus.k_ok;
  inits = λ p. true;
  acquires = λ p. Outcome.done true;
  process = λ p pixel.
      Outcome.done
        (ReturnStatus.k_ok, record { pixels = 9 ∷ 9 ∷ 9 ∷ 9 ∷ []; size = 4; w = 1; h = 1; c = 4 });
  libraries = libraries;
}

abbrev task : ImageTask
task = record { model_id = 2; image_id = "65f1" }

abbrev service : Service
service = record {
  provider = one_initialized;
  codecs = record { png_pool = []; jpg_pool = []; next = 0 };
  effects = [];
}
