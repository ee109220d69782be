-- ===== src/Loader/Containers.antt =====
-- processor-loader.cpp: which module a container goes back to, and which directories are loaded.

use limb_worker.Prelude.{
  ℕ, zero, suc, ◌<◌, ◌≡◌, refl, sym, ap, ◌∙◌, subst, some, List, [], ◌∷◌, ◌++◌, ◌==◌, arith,
  if◌then◌else◌, Outcome, Option-cases, inl, inr, length, get_elem?,
}
use limb_worker.Loader.{
  Environment, Event, Loader, LoadedModule, allocate_container, destroy_container, unload,
  set_processor, find_processor, erase_processor, emit,
}

find-set :
    (p q i : ℕ) (ps : List (ℕ × ℕ))
    → find_processor q (set_processor p i ps) ≡ (if p == q then some i else find_processor q ps)
unfolding find_processor set_processor
find-set p q i [] = refl
find-set p q i ((r, j) ∷ ps) = ground (arith, find-set p q i ps)

-- Every container that is held came from a module that is loaded.
pub record IsHeld (l : Loader) : Type 0 where
  pub in_range : (p i : ℕ) → find_processor p l.processors ≡ some i → i < length l.modules

get_elem?-below :
    (ms : List LoadedModule) (i : ℕ)
    → i < length ms
    → (m : LoadedModule) × (get_elem? ms i ≡ some m)
get_elem?-below [] i h = absurd (omega arith)
get_elem?-below (m ∷ ms) zero h = (m, refl)
get_elem?-below (m ∷ ms) (suc i) h = get_elem?-below ms i (omega arith)

get_elem?-lt :
    (ms : List LoadedModule) (i : ℕ) {m : LoadedModule} → get_elem? ms i ≡ some m → i < length ms
get_elem?-lt [] i e = absurd (cc)
get_elem?-lt (m ∷ ms) zero e = omega arith
get_elem?-lt (m ∷ ms) (suc i) e = omega (arith, get_elem?-lt ms i e)

-- A container that `allocateContainer` returns is held, with its index; and destroying it at once is
-- defined, hands it to the module of that index, and to no other.
pub allocate_container-destroy_container :
    (env : Environment) (l : Loader) (index p : ℕ) {l' : Loader}
    → allocate_container env l index ≡ (l', some p)
    → (m : LoadedModule) × (l'' : Loader) × (get_elem? l.modules index ≡ some m)
      × (env.allocate m.proc_module ≡ some p)
      × (destroy_container l' p ≡ Outcome.done l'')
      × (l''.events ≡ l.events ++ Event.deallocates m.proc_module p ∷ [])
      × (l''.modules ≡ l.modules)
unfolding allocate_container destroy_container
allocate_container-destroy_container env l index p {l'} e =
    elim (Option-cases (get_elem? l.modules index)) [
      | inl n ↦ absurd (ground arith)
      | inr (m, g) ↦ elim (Option-cases (env.allocate m.proc_module)) [
        | inl n ↦ absurd (ground arith)
        | inr (q, a) ↦
            let same : q ≡ p = ground arith in
            let stored : l'.processors ≡ set_processor p index l.processors = ground arith in
            let kept : l'.modules ≡ l.modules = ground arith in
            let found : find_processor p l'.processors ≡ some index =
              ground (arith, find-set p p index l.processors) in
            (
              m,
              emit (record l' { processors = erase_processor p l'.processors })
                  (Event.deallocates m.proc_module p ∷ []),
              g,
              a ∙ ap some same,
              ground arith,
              ground arith,
              kept,
            )
      ]
    ]

-- An allocation keeps every held container in range.
pub allocate_container-IsHeld :
    (env : Environment) (l : Loader) (index : ℕ)
    → IsHeld l
    → IsHeld (allocate_container env l index).0
unfolding allocate_container
allocate_container-IsHeld env l index v = elim (Option-cases (get_elem? l.modules index)) [
  | inl n ↦
      let same : (allocate_container env l index).0 ≡ l = ground arith in subst IsHeld (sym same) v
  | inr (m, g) ↦ elim (Option-cases (env.allocate m.proc_module)) [
    | inl n ↦
        let same : (allocate_container env l index).0 ≡ l = ground arith in
        subst IsHeld (sym same) v
    | inr (p, a) ↦
        let grown : (allocate_container env l index).0
            ≡ record l { processors = set_processor p index l.processors } =
          ground arith in
        subst IsHeld (sym grown) (record {
          in_range = λ q i e.
              let lt = get_elem?-lt l.modules index g in
              let old = v.in_range q i in ground (arith, find-set p q index l.processors, lt, old);
        })
  ]
]

-- `unload` forgets the modules and keeps the containers: destroying one that is still held is then
-- undefined, for any loader.
pub unload-destroy_container :
    (env : Environment) (l : Loader) (p i : ℕ)
    → find_processor p l.processors ≡ some i
    → destroy_container (unload env l) p ≡ Outcome.undefined
unfolding unload destroy_container
unload-destroy_container env l p i e = ground arith
