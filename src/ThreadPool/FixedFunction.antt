-- ===== src/ThreadPool/FixedFunction.antt =====
-- include/thread-pool/fixed-function.hpp: `FixedFunction`, its storage and the moves between objects.
-- The types of the stored objects and what they do when called are parameters, as template arguments are.
pub mod Values
pub mod Shapes
pub mod Moves
use limb_worker.Prelude.{
  ℕ, Bool, true, false, Option, none, some, List, [], ◌∷◌, ◌++◌, ◌==◌, if◌then◌else◌, Outcome,
  ◌>>=◌,
}

-- The union: `object` and `moved_from` are an object that lives in `m_storage`; `function` is
-- `m_function_ptr`, and `nothing` is the null pointer or storage whose object is destroyed.
pub data Stored {ℓ} (A F : Type ℓ) : Type ℓ where
  nothing moved_from : Stored A F
  object : A → Stored A F
  function : F → Stored A F

-- The two functions that `m_method_ptr` can point to.
pub data Method : Type 0 where
  calls_object calls_function : Method

pub record FixedFunction {ℓ} (A F : Type ℓ) : Type ℓ where
  pub method_ptr : Option Method
  pub alloc_ptr : Bool
  pub stored : Stored A F

-- Operations on the objects of a program, by their place. An operation on a place that holds no object,
-- or a constructor on one that holds one, is none of C++ and does nothing.
pub data Operation {ℓ} (A F X : Type ℓ) : Type ℓ where
  makes : ℕ → Operation A F X
  makes_object : ℕ → A → Operation A F X
  makes_function : ℕ → F → Operation A F X
  makes_from moves : ℕ → ℕ → Operation A F X
  calls : ℕ → X → Operation A F X
  ends : ℕ → Operation A F X

module _ {ℓ} {A F : Type ℓ} where
  pub empty : FixedFunction A F
  empty = record { method_ptr = none; alloc_ptr = false; stored = Stored.nothing }

  pub of_object : A → FixedFunction A F
  of_object a = record {
    method_ptr = some Method.calls_object;
    alloc_ptr = true;
    stored = Stored.object a;
  }

  pub of_function : F → FixedFunction A F
  of_function f = record {
    method_ptr = some Method.calls_function;
    alloc_ptr = false;
    stored = Stored.function f;
  }

  -- `m_alloc_ptr(&m_storage, nullptr)`, the destructor of what is stored.
  abbrev pub destroy_stored : Stored A F → Outcome (Stored A F)
  destroy_stored Stored.nothing = Outcome.undefined
  destroy_stored Stored.moved_from = Outcome.done Stored.nothing
  destroy_stored (Stored.object a) = Outcome.done Stored.nothing
  destroy_stored (Stored.function f) = Outcome.undefined

  -- `m_alloc_ptr(&m_storage, &o.m_storage)`, a move into storage: the new object and what is left.
  abbrev pub move_stored : Stored A F → Outcome (Stored A F × Stored A F)
  move_stored Stored.nothing = Outcome.undefined
  move_stored Stored.moved_from = Outcome.done (Stored.moved_from, Stored.moved_from)
  move_stored (Stored.object a) = Outcome.done (Stored.object a, Stored.moved_from)
  move_stored (Stored.function f) = Outcome.undefined

  -- `m_function_ptr`, which is not to be copied where an object lives. `operator()` passes it on in any
  -- case, to methods that ignore it there.
  abbrev pub function_stored : Stored A F → Outcome (Stored A F)
  function_stored Stored.nothing = Outcome.done Stored.nothing
  function_stored Stored.moved_from = Outcome.undefined
  function_stored (Stored.object a) = Outcome.undefined
  function_stored (Stored.function f) = Outcome.done (Stored.function f)

  -- A new object, or the pointer, goes into storage where no object lives any more: one that did would
  -- never be destroyed.
  abbrev pub place : Stored A F → Stored A F → Outcome (Stored A F)
  place Stored.nothing new = Outcome.done new
  place (Stored.function f) new = Outcome.done new
  place Stored.moved_from new = Outcome.undefined
  place (Stored.object a) new = Outcome.undefined

  -- The first branch of `moveFromOther`: what is stored is destroyed, or the pointer is reset.
  pub release : FixedFunction A F → Outcome (FixedFunction A F)
  release this =
      if this.alloc_ptr
      then (do
        left ← destroy_stored this.stored
        Outcome.done (record this { alloc_ptr = false; stored = left }))
      else (do
        reset ← place this.stored Stored.nothing
        Outcome.done (record this { stored = reset }))

  -- `moveFromOther` of two objects.
  pub move_from_other :
      FixedFunction A F → FixedFunction A F → Outcome (FixedFunction A F × FixedFunction A F)
  unfolding release
  move_from_other this o = do
    released ← release this
    if o.alloc_ptr
        then (do
          (new, old) ← move_stored o.stored
          placed ← place released.stored new
          Outcome.done (
            record { method_ptr = o.method_ptr; alloc_ptr = true; stored = placed },
            record o { method_ptr = none; stored = old },
          ))
        else (do
          pointer ← function_stored o.stored
          placed ← place released.stored pointer
          Outcome.done (
            record released { method_ptr = o.method_ptr; stored = placed },
            record o { method_ptr = none },
          ))

  -- The destructor. Storage that ends with an object in it that nothing destroys is an error as well.
  abbrev dead : Stored A F → Outcome (Stored A F)
  dead Stored.nothing = Outcome.done Stored.nothing
  dead Stored.moved_from = Outcome.undefined
  dead (Stored.object a) = Outcome.undefined
  dead (Stored.function f) = Outcome.done Stored.nothing

  pub end : FixedFunction A F → Outcome (Stored A F)
  end this =
      if this.alloc_ptr then (do left ← destroy_stored this.stored; dead left) else dead this.stored

abbrev pub set_at {κ} : {B : Type κ} → (ℕ → B) → ℕ → B → ℕ → B
set_at f i b j = if j == i then b else f j

module _ {ℓ} {A F X R : Type ℓ} (apply : A → X → R × A) (run : F → X → R) where
  abbrev call_object : X → Stored A F → Outcome (R × Stored A F)
  call_object x Stored.nothing = Outcome.undefined
  call_object x Stored.moved_from = Outcome.undefined
  call_object x (Stored.object a) = let (r, b) = apply a x in Outcome.done (r, Stored.object b)
  call_object x (Stored.function f) = Outcome.undefined

  abbrev call_function : X → Stored A F → Outcome (R × Stored A F)
  call_function x Stored.nothing = Outcome.undefined
  call_function x Stored.moved_from = Outcome.undefined
  call_function x (Stored.object a) = Outcome.undefined
  call_function x (Stored.function f) = Outcome.done (run f x, Stored.function f)

  -- `operator()`.
  pub call : X → FixedFunction A F → Outcome (R × FixedFunction A F)
  call x this = elim this.method_ptr [
    | none ↦ Outcome.throws
    | some method ↦ do
      (r, stored) ← (elim method [
        | Method.calls_object ↦ call_object x this.stored
        | Method.calls_function ↦ call_function x this.stored
      ])
      Outcome.done (r, record this { stored = stored })
  ]

  abbrev pub Places : Type ℓ
  Places = ℕ → Option (FixedFunction A F)

  abbrev pub Result : Type ℓ
  Result = Outcome (Places × List (Option R))

  -- The operations, by what the places hold.
  abbrev pub make_at : ℕ → FixedFunction A F → Places → Option (FixedFunction A F) → Result
  make_at i new s none = Outcome.done (set_at s i (some new), [])
  make_at i new s (some this) = Outcome.done (s, [])

  pub move_at : ℕ → ℕ → Places → FixedFunction A F → FixedFunction A F → Result
  unfolding move_from_other
  move_at i j s this o = do
    (new, old) ← move_from_other this o
    Outcome.done (set_at (set_at s j (some old)) i (some new), [])

  abbrev pub make_from_at :
      ℕ → ℕ → Places → Option (FixedFunction A F) → Option (FixedFunction A F) → Result
  make_from_at i j s none none = Outcome.done (s, [])
  make_from_at i j s none (some o) = move_at i j s empty o
  make_from_at i j s (some this) o = Outcome.done (s, [])

  abbrev pub assign_at :
      ℕ → ℕ → Places → Option (FixedFunction A F) → Option (FixedFunction A F) → Result
  assign_at i j s none o = Outcome.done (s, [])
  assign_at i j s (some this) none = Outcome.done (s, [])
  assign_at i j s (some this) (some o) =
      if i == j then Outcome.done (s, []) else move_at i j s this o

  abbrev pub called_at : ℕ → Places → Outcome (R × FixedFunction A F) → Result
  called_at i s Outcome.throws = Outcome.done (s, none ∷ [])
  called_at i s Outcome.undefined = Outcome.undefined
  called_at i s (Outcome.done (r, this)) = Outcome.done (set_at s i (some this), some r ∷ [])

  pub call_at : ℕ → X → Places → Option (FixedFunction A F) → Result
  unfolding call
  call_at i x s none = Outcome.done (s, [])
  call_at i x s (some this) = called_at i s (call x this)

  pub end_at : ℕ → Places → Option (FixedFunction A F) → Result
  unfolding end
  end_at i s none = Outcome.done (s, [])
  end_at i s (some this) = do left ← end this; Outcome.done (set_at s i none, [])

  -- The objects after an operation, and its reply: `none` for the exception of an empty functor.
  pub step : Operation A F X → Places → Result
  unfolding call_at end_at move_at
  step (Operation.makes i) s = make_at i empty s (s i)
  step (Operation.makes_object i a) s = make_at i (of_object a) s (s i)
  step (Operation.makes_function i f) s = make_at i (of_function f) s (s i)
  step (Operation.makes_from i j) s = make_from_at i j s (s i) (s j)
  step (Operation.moves i j) s = assign_at i j s (s i) (s j)
  step (Operation.calls i x) s = call_at i x s (s i)
  step (Operation.ends i) s = end_at i s (s i)

  -- The replies of a program.
  pub run_all : List (Operation A F X) → Places → Result
  unfolding step
  run_all [] s = Outcome.done (s, [])
  run_all (o ∷ rest) s = do
    (s', replies) ← step o s
    (s'', more) ← run_all rest s'
    Outcome.done (s'', replies ++ more)
