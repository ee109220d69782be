-- ===== src/App/Lifecycle.antt =====
-- limb-app.h: start-up.
use limb_worker.Prelude.{
  ℕ, zero, suc, ◌+◌, ◌<◌, ◌≤◌, ◌≡◌, ◌≢◌, inl, inr, refl, subst, false, none, some, [], ◌∷◌, arith,
  ◌==◌, if◌then◌else◌, Option-cases, ◌∙◌,
}
use limb_worker.Status.{ReturnStatus}
use limb_worker.Capabilities
use limb_worker.Capabilities.Report.{
  name_of, add_available_processor_lem, has_index-add_available_processor, has_index-nil,
}
use limb_worker.Capabilities.{AvailableProcessor, Capabilities}
use limb_worker.Service.Storage
use limb_worker.Service.Storage.{Storage}
use limb_worker.Service.Storage.Keys.{acquire_container-add_container, find-nil}
use limb_worker.Service.Initializer
use limb_worker.Service.Initializer.{Initializer, Event, contains}
use limb_worker.App.{Modules, App, init, init_from}

-- An `App` as the constructor leaves it.
abbrev pub new_app : ℕ → App
new_app hardware_concurrency = record {
  live = [];
  media_service = Initializer.fresh;
  cap_provider = Capabilities.fresh hardware_concurrency;
}

-- After `n` rounds of `init`: the indices below `n` are registered with the loader's containers and
-- reported, no others are, and nothing is initialised.
pub record Loaded (m : Modules) (n : ℕ) (a : App) : Type 0 where
  pub below :
      (i : ℕ) → i < n → Storage.acquire_container a.media_service.upstream i ≡ some (m.allocate i)
  pub above : (i : ℕ) → n ≤ i → Storage.acquire_container a.media_service.upstream i ≡ none
  pub reported :
      (i : ℕ) → i < n → name_of i a.cap_provider.available_processors ≡ some (m.module_name i)
  pub unreported :
      (i : ℕ) → n ≤ i → Capabilities.has_index i a.cap_provider.available_processors ≡ false
  pub counted : Initializer.processor_count a.media_service ≡ n
  pub idle : a.media_service.initialized ≡ []

module _ (m : Modules) where
  round : App → ℕ → ℕ → App
  round a i p = record a {
    live = p ∷ a.live;
    media_service = (Initializer.add_container a.media_service i (some p)).0;
    cap_provider = (Capabilities.add_available_processor a.cap_provider (m.module_name i) i).0;
  }

  init_from-step :
      (n i p : ℕ) (a : App)
      → m.allocate i ≡ some p
      → Storage.acquire_container a.media_service.upstream i ≡ none
      → init_from m (suc n) i a ≡ init_from m n (i + 1) (round a i p)
  unfolding init_from round Initializer.add_container
  init_from-step n i p a e h =
      ground (arith, acquire_container-add_container a.media_service.upstream i i (some p) h)

  round-Loaded :
      (i p : ℕ) (a : App) → m.allocate i ≡ some p → Loaded m i a → Loaded m (i + 1) (round a i p)
  unfolding round Initializer.add_container Initializer.processor_count Capabilities.get_app_info
  round-Loaded i p a e l = record {
    below = λ j h. ground (arith, l.below j, stored j);
    above = λ j h. ground (arith, l.above j, stored j);
    reported = λ j h. ground (
      arith,
      l.reported j,
      add_available_processor_lem a.cap_provider (m.module_name i) i j,
      l.unreported i (omega arith),
    );
    unreported = λ j h. ground (
      arith,
      l.unreported j,
      has_index-add_available_processor a.cap_provider (m.module_name i) i j
          (l.unreported i (omega arith)),
    );
    counted = ground (arith, l.counted, stored 0);
    idle = l.idle;
  }
    where
      stored :
          (j : ℕ)
          → let s = a.media_service.upstream in
            let s' = (Storage.add_container s i (some p)).0 in
            (Storage.acquire_container s' j
              ≡ (if i == j then some (some p) else Storage.acquire_container s j))
            × (Storage.processor_count s' ≡ Storage.processor_count s + 1)
            × ((Storage.add_container s i (some p)).1 ≡ ReturnStatus.k_ok)
      stored j =
          acquire_container-add_container a.media_service.upstream i j (some p)
            (l.above i (omega arith))

  init_from-Loaded :
      (n i : ℕ) (a : App)
      → ((j : ℕ) → j < i + n → m.allocate j ≢ none)
      → Loaded m i a
      → (b : App) × (init_from m n i a ≡ (b, ReturnStatus.k_ok)) × Loaded m (i + n) b
  unfolding init_from
  init_from-Loaded zero i a f l = (a, refl, subst (λ k. Loaded m k a) {x = i} (omega arith) l)
  init_from-Loaded (suc n) i a f l = elim (Option-cases (m.allocate i)) [
    | inl e ↦ absurd (f i (omega arith) e)
    | inr (p, e) ↦
        let (b, run, l') =
          init_from-Loaded n (i + 1) (round a i p) (λ j h. f j (omega arith))
            (round-Loaded i p a e l) in
        (
          b,
          init_from-step n i p a e (l.above i (omega arith)) ∙ run,
          subst (λ k. Loaded m k b) {x = i + 1 + n} (omega arith) l',
        )
  ]

  new_app-Loaded : (hardware_concurrency : ℕ) → Loaded m 0 (new_app hardware_concurrency)
  unfolding Initializer.fresh Capabilities.fresh Initializer.processor_count Storage.processor_count
      Storage.acquire_container
  new_app-Loaded h = record {
    below = λ i p. absurd (omega arith);
    above = λ i p. find-nil i;
    reported = λ i p. absurd (omega arith);
    unreported = λ i p. has_index-nil i;
    counted = refl;
    idle = refl;
  }

  -- If no module returns a null container, `init` of a new `App` returns kOk, and then exactly the
  -- indices below the number of modules are registered, each with its module's container, and
  -- reported, each under its module's name; no container is initialised yet.
  pub init-Loaded :
      (hardware_concurrency : ℕ)
      → ((j : ℕ) → j < m.count → m.allocate j ≢ none)
      → (b : App) × (init m (new_app hardware_concurrency) ≡ (b, ReturnStatus.k_ok))
        × Loaded m m.count b
  unfolding init
  init-Loaded hardware_concurrency f =
      let (b, run, l) =
        init_from-Loaded m.count 0 (new_app hardware_concurrency) (λ j h. f j (omega arith))
          (new_app-Loaded hardware_concurrency) in
      (b, run, subst (λ k. Loaded m k b) {x = 0 + m.count} {y = m.count} (omega arith) l)
