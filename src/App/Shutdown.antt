-- ===== src/App/Shutdown.antt =====
-- limb-app.h: shutdown, after a start-up that loaded every module.
use limb_worker.Prelude.{
  Outcome, ℕ, zero, suc, ◌+◌, ◌<◌, ◌≤◌, ◌≡◌, ◌≢◌, inl, inr, refl, sym, ap, subst, subst₂, Bool,
  true, false, Bool-cases, ◌⊎◌, ◌++◌, none, some, [], ◌∷◌, arith, if◌then◌else◌, Option-cases, ◌∙◌,
}
use native.Mathlib.Decide.{dec_lt}
use limb_worker.Status.{ReturnStatus}
use limb_worker.Service.Storage
use limb_worker.Service.Storage.{Storage}
use limb_worker.Service.Initializer
use limb_worker.Service.Initializer.{Initializer, Event, contains}
use limb_worker.Service.Initializer.Registration.{
  Registered, clear-defined, acquire_container-first,
}
use limb_worker.App.{Modules, App, init, deinit, deinit_from, destroy_container}
use limb_worker.App.Lifecycle.{Loaded, new_app, init-Loaded}

-- Module `j`'s container, and whether its `init` returns.
abbrev pub Answers : Modules → ℕ → Bool → Type 0
Answers m j returns = (p : ℕ) × (m.allocate j ≡ some p) × (m.inits p ≡ returns)

-- Every index has its module's container, and those from `i` on are not initialised.
abbrev Ready : Modules → ℕ → App → Type 0
Ready m i a =
    ((j : ℕ)
      → j < m.count
      → (p : ℕ) × (m.allocate j ≡ some p)
        × (Storage.acquire_container a.media_service.upstream j ≡ some (some p)))
    × Registered a.media_service.upstream a.media_service.initialized
    × ((j : ℕ) → i ≤ j → contains j a.media_service.initialized ≡ false)

destroy_container-keeps :
    (a : App) (p : ℕ)
    → ((destroy_container a p).media_service.upstream ≡ a.media_service.upstream)
      × ((destroy_container a p).media_service.initialized ≡ a.media_service.initialized)
unfolding destroy_container
destroy_container-keeps a p = ground arith

-- The state behind a round of `deinit` at index `i` and address `p`.
acquired : App → ℕ → ℕ → App
acquired a i p = record a {
  media_service = record (a.media_service) {
    initialized = i ∷ a.media_service.initialized;
    log = a.media_service.log ++ Event.inits p ∷ [];
  };
}

acquired-Ready :
    (m : Modules) (i p : ℕ) (a : App)
    → Storage.acquire_container a.media_service.upstream i ≡ some (some p)
    → Ready m i a
    → Ready m (i + 1) (destroy_container (acquired a i p) p)
unfolding acquired contains
acquired-Ready m i p a e (stored, registered, new) =
    let (u, t) = destroy_container-keeps (acquired a i p) p in
    (
      λ j h.
          let (q, allocated, f) = stored j h in
          (q, allocated, ap (λ s. Storage.acquire_container s j) u ∙ f),
      subst₂ Registered (sym u) (sym t) ((p, e), new i (omega arith), registered),
      λ j h. ap (λ s. contains j s) t ∙ ground (arith, new j, h),
    )

acquired-initialized :
    (a : App) (i p : ℕ) → (destroy_container (acquired a i p) p).media_service.initialized ≢ []
unfolding acquired
acquired-initialized a i p e =
    let cons = sym (destroy_container-keeps (acquired a i p) p).1 ∙ e in cc

deinit_from-acquired :
    (m : Modules) (n i p : ℕ) (a : App)
    → Storage.acquire_container a.media_service.upstream i ≡ some (some p)
    → contains i a.media_service.initialized ≡ false
    → deinit_from m (suc n) i a ≡ (
        if m.inits p
        then deinit_from m n (i + 1) (destroy_container (acquired a i p) p)
        else Outcome.throws)
unfolding deinit_from acquired
deinit_from-acquired m n i p a e new =
    let run = acquire_container-first m.inits a.media_service i p e new in
    elim (Bool-cases (m.inits p)) [
      | inl inits ↦ rw (run, deinit_from) (rw (inits) refl)
      | inr fails ↦ rw (run, deinit_from) (rw (fails) refl)
    ]

-- How the loop of `deinit` ends, from index `i` and `n` rounds before its end.
abbrev Deinits : Modules → ℕ → ℕ → App → Type 0
Deinits m n i a =
    ((b : App) × (deinit_from m n i a ≡ Outcome.done b)
      × Registered b.media_service.upstream b.media_service.initialized
      × (1 ≤ i + n → b.media_service.initialized ≢ [])
      × ((j : ℕ) → i ≤ j → j < i + n → Answers m j true))
    ⊎ ((deinit_from m n i a ≡ Outcome.throws) × ((j : ℕ) × (j < m.count) × Answers m j false))

deinit_from-Ready :
    (m : Modules) (n i : ℕ) (a : App)
    → i + n ≤ m.count
    → Ready m i a
    → (1 ≤ i → a.media_service.initialized ≢ [])
    → Deinits m n i a
unfolding deinit_from
deinit_from-Ready m zero i a h ready ne =
    inl (a, refl, ready.1, λ p. ne (omega arith), λ j p q. absurd (omega arith))
deinit_from-Ready m (suc n) i a h ready ne =
    let (p, allocated, e) = ready.0 i (omega arith) in
    let run = deinit_from-acquired m n i p a e (ready.2 i (omega arith)) in
    let next = destroy_container (acquired a i p) p in
    elim (Bool-cases (m.inits p)) [
      | inr fails ↦ inr (run ∙ rw (fails) refl, (i, omega arith, (p, allocated, fails)))
      | inl inits ↦
          elim (deinit_from-Ready m n (i + 1) next (omega arith) (acquired-Ready m i p a e ready)
            (λ _. acquired-initialized a i p)) [
              | inl (b, rest, registered, ne', answers) ↦ inl (
                b,
                run ∙ rw (inits) rest,
                registered,
                λ q. ne' (omega arith),
                λ j q r. elim (dec_lt i j) [
                  | yes later ↦ answers j (omega arith) (omega arith)
                  | no same ↦
                      let at : i ≡ j = omega (arith, q, same) in
                      subst (λ k. Answers m k true) at (p, allocated, inits)
                ],
              )
              | inr (rest, failing) ↦ inr (run ∙ rw (inits) rest, failing)
            ]
    ]

-- The two ways in which `deinit` goes wrong.
abbrev Shutdown : Modules → App → Type 0
Shutdown m a =
    ((deinit m a ≡ Outcome.undefined) × ((j : ℕ) → j < m.count → Answers m j true))
    ⊎ ((deinit m a ≡ Outcome.throws) × ((j : ℕ) × (j < m.count) × Answers m j false))

deinit_of_Ready :
    (m : Modules) (a : App)
    → 1 ≤ m.count
    → Initializer.processor_count a.media_service ≡ m.count
    → Ready m 0 a
    → Shutdown m a
unfolding deinit
deinit_of_Ready m a one counted ready =
    elim (deinit_from-Ready m m.count 0 a (omega arith) ready (λ h. absurd (omega arith))) [
      | inr (run, failing) ↦
          inr (rw (ap (λ t. deinit_from m t 0 a) counted ∙ run, deinit) refl, failing)
      | inl (b, run, registered, ne, answers) ↦
          let run' = ap (λ t. deinit_from m t 0 a) counted ∙ run in
          elim (clear-defined b.media_service registered) [
            | inl (z, _) ↦ absurd (ne (omega arith) z)
            | inr (_, u) ↦
                inl (rw (run', deinit) (rw u), λ j h. answers j (omega arith) (omega arith))
          ]
    ]

allocated : (m : Modules) (i : ℕ) → m.allocate i ≢ none → (p : ℕ) × (m.allocate i ≡ some p)
allocated m i f = elim (Option-cases (m.allocate i)) [ inl e ↦ absurd (f e) | inr (p, e) ↦ (p, e) ]

Loaded-Ready :
    (m : Modules) (a : App)
    → ((j : ℕ) → j < m.count → m.allocate j ≢ none)
    → Loaded m m.count a
    → Ready m 0 a
unfolding contains
Loaded-Ready m a f l = (
  λ i h. let (p, e) = allocated m i (f i h) in (p, e, l.below i h ∙ ap some e),
  subst (Registered a.media_service.upstream) (sym l.idle) tt,
  λ j h. ap (λ is. contains j is) l.idle,
)

-- If there is a module, and no module returns a null container, then `init` of a new `App` returns kOk,
-- and `deinit` of the result never returns: it is undefined if the `init` of every container returns,
-- and throws if that of some container throws.
pub init-deinit :
    (m : Modules) (hardware_concurrency : ℕ)
    → 1 ≤ m.count
    → ((j : ℕ) → j < m.count → m.allocate j ≢ none)
    → (a : App) × (init m (new_app hardware_concurrency) ≡ (a, ReturnStatus.k_ok))
      × (((deinit m a ≡ Outcome.undefined) × ((j : ℕ) → j < m.count → Answers m j true))
          ⊎ ((deinit m a ≡ Outcome.throws) × ((j : ℕ) × (j < m.count) × Answers m j false)))
init-deinit m hardware_concurrency one f =
    let (a, run, l) = init-Loaded m hardware_concurrency f in
    (a, run, deinit_of_Ready m a one l.counted (Loaded-Ready m a f l))
