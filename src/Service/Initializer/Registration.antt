-- ===== src/Service/Initializer/Registration.antt =====
-- processor-initializer.hpp: what is initialised, and when the calls go wrong.
use limb_worker.Prelude.{
  Outcome, ℕ, ◌≡◌, ◌≢◌, ◌⊎◌, inl, inr, refl, Bool, true, false, Option, none, some, List, [], ◌∷◌,
  ◌++◌, arith, Bool-cases, Option-cases, if◌then◌else◌,
}
use limb_worker.Service.Storage
use limb_worker.Service.Storage.{Storage, find}
use limb_worker.Service.Initializer.{
  Initializer, Event, contains, erase_index, acquire_container, deinit_container, init_container,
  clear, clear_from,
}

-- Every initialised index is registered, with a container that is not null, and stands once.
abbrev pub Registered : Storage → List ℕ → Type 0
Registered s [] = Unit {0}
Registered s (i ∷ is) =
    ((p : ℕ) × (Storage.acquire_container s i ≡ some (some p)))
    × (contains i is ≡ false)
    × Registered s is

clear_from-cons :
    (s : Initializer) (i p : ℕ) (rest : List ℕ)
    → s.initialized ≡ i ∷ rest
    → Storage.acquire_container s.upstream i ≡ some (some p)
    → contains i rest ≡ false
    → clear_from (i ∷ rest) s ≡ Outcome.undefined
unfolding clear_from deinit_container contains erase_index
clear_from-cons s i p rest e a c = ground arith

clear-cases :
    (s : Initializer) (is : List ℕ)
    → s.initialized ≡ is
    → Registered s.upstream is
    → ((is ≡ []) × (clear s ≡ Outcome.done (record s { upstream = [] })))
      ⊎ ((is ≢ []) × (clear s ≡ Outcome.undefined))
unfolding clear Storage.clear clear_from
clear-cases s [] e r = inl (refl, rw (e, clear) (ground arith))
clear-cases s (i ∷ rest) e r =
    inr (λ h. cc, ground (arith, clear_from-cons s i r.0.0 rest e r.0.1 r.1))

-- With every initialised index registered under a container that is not null, `clear` empties the map
-- and returns if no index is initialised, and is undefined otherwise.
pub clear-defined :
    (s : Initializer)
    → Registered s.upstream s.initialized
    → ((s.initialized ≡ []) × (clear s ≡ Outcome.done (record s { upstream = [] })))
      ⊎ ((s.initialized ≢ []) × (clear s ≡ Outcome.undefined))
clear-defined s r = clear-cases s s.initialized refl r

-- If `acquireContainer` of an index returns a container, then that container is stored under the
-- index, the index is initialised afterwards, and a second call returns the same container and
-- changes nothing.
pub acquire_twice :
    (returns : ℕ → Bool) (s : Initializer) (i : ℕ) {s' : Initializer} {c : Option ℕ}
    → acquire_container returns s i ≡ Outcome.done (s', c)
    → (Storage.acquire_container s.upstream i ≡ some c)
      × (contains i s'.initialized ≡ true)
      × (acquire_container returns s' i ≡ Outcome.done (s', c))
unfolding acquire_container Storage.acquire_container
acquire_twice returns s i h = ground arith

acquire_container-cases :
    (returns : ℕ → Bool) (s : Initializer) (i : ℕ) {s' : Initializer} {c : Option ℕ}
    → acquire_container returns s i ≡ Outcome.done (s', c)
    → (s' ≡ s)
      ⊎ ((p : ℕ) × (Storage.acquire_container s.upstream i ≡ some (some p))
          × (contains i s.initialized ≡ false)
          × (s' ≡ record s { initialized = i ∷ s.initialized; log = s.log ++ Event.inits p ∷ [] }))
unfolding acquire_container init_container Storage.acquire_container
acquire_container-cases returns s i h =
    elim (Option-cases (Storage.acquire_container s.upstream i)) [
      | inl e ↦ ground arith
      | inr (none, e) ↦ ground arith
      | inr (some p, e) ↦ elim (Bool-cases (contains i s.initialized)) [
        | inl old ↦ inl (ground arith)
        | inr new ↦ inr (p, ground arith, new, ground arith)
      ]
    ]

-- An acquisition that returns keeps every initialised index registered, under a container that is
-- not null, and keeps the initialised indices distinct.
pub acquire_container-Registered :
    (returns : ℕ → Bool) (s : Initializer) (i : ℕ) {s' : Initializer} {c : Option ℕ}
    → Registered s.upstream s.initialized
    → acquire_container returns s i ≡ Outcome.done (s', c)
    → Registered s'.upstream s'.initialized
acquire_container-Registered returns s i r h = elim (acquire_container-cases returns s i h) [
  | inl e ↦ rw e r
  | inr (p, a, new, e) ↦ rw e ((p, a), new, r)
]

-- The first acquisition of a registered container that is not null: it throws where the container's
-- `init` does, and otherwise the container is initialised.
pub acquire_container-first :
    (returns : ℕ → Bool) (s : Initializer) (i p : ℕ)
    → Storage.acquire_container s.upstream i ≡ some (some p)
    → contains i s.initialized ≡ false
    → acquire_container returns s i ≡ (
        if returns p
        then Outcome.done (
          record s { initialized = i ∷ s.initialized; log = s.log ++ Event.inits p ∷ [] },
          some p,
        )
        else Outcome.throws)
unfolding acquire_container init_container
acquire_container-first returns s i p e new = ground arith

-- The container under an index is not initialised yet, and its `init` throws.
abbrev pub Fails : (ℕ → Bool) → Initializer → ℕ → Type 0
Fails returns s i =
    (p : ℕ) × (Storage.acquire_container s.upstream i ≡ some (some p))
    × (contains i s.initialized ≡ false)
    × (returns p ≡ false)

-- An acquisition throws only where the index is not registered, or the container fails.
pub acquire_container-throws :
    (returns : ℕ → Bool) (s : Initializer) (i : ℕ)
    → acquire_container returns s i ≡ Outcome.throws
    → (Storage.acquire_container s.upstream i ≡ none) ⊎ Fails returns s i
unfolding acquire_container init_container
acquire_container-throws returns s i h =
    elim (Option-cases (Storage.acquire_container s.upstream i)) [
      | inl e ↦ inl e
      | inr (none, e) ↦ absurd (ground (arith, e, h))
      | inr (some p, e) ↦ inr (p, e, ground (arith, e, h), ground (arith, e, h))
    ]

-- An acquisition is undefined only where a null pointer is registered that is not initialised.
pub acquire_container-undefined :
    (returns : ℕ → Bool) (s : Initializer) (i : ℕ)
    → acquire_container returns s i ≡ Outcome.undefined
    → (Storage.acquire_container s.upstream i ≡ some none) × (contains i s.initialized ≡ false)
unfolding acquire_container init_container
acquire_container-undefined returns s i h =
    elim (Option-cases (Storage.acquire_container s.upstream i)) [
      | inl e ↦ absurd (ground (arith, e, h))
      | inr (none, e) ↦ (e, ground (arith, e, h))
      | inr (some p, e) ↦ absurd (ground (arith, e, h))
    ]
