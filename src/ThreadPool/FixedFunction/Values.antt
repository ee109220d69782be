-- ===== src/ThreadPool/FixedFunction/Values.antt =====
-- fixed-function.hpp: the specification, values that can be called and that move between places.
use limb_worker.Prelude.{ℕ, Option, none, some, List, [], ◌∷◌, ◌++◌, ◌==◌, if◌then◌else◌}
use limb_worker.ThreadPool.FixedFunction.{Operation, set_at}

-- The specification: an object holds a value that can be called, or none.
pub data Callable {ℓ} (A F : Type ℓ) : Type ℓ where
  object : A → Callable A F
  function : F → Callable A F

module _ {ℓ} {A F X R : Type ℓ} (apply : A → X → R × A) (run : F → X → R) where
  abbrev pub Values : Type ℓ
  Values = ℕ → Option (Option (Callable A F))

  abbrev pub Answer : Type ℓ
  Answer = Values × List (Option R)

  abbrev pub make_value :
      ℕ → Option (Callable A F) → Values → Option (Option (Callable A F)) → Answer
  make_value i v t none = (set_at t i (some v), [])
  make_value i v t (some old) = (t, [])

  -- The value moves, and the source holds none.
  abbrev pub move_value : ℕ → ℕ → Values → Option (Callable A F) → Answer
  move_value i j t v = (set_at (set_at t j (some none)) i (some v), [])

  abbrev pub make_from_value :
      ℕ → ℕ → Values → Option (Option (Callable A F)) → Option (Option (Callable A F)) → Answer
  make_from_value i j t none none = (t, [])
  make_from_value i j t none (some v) = move_value i j t v
  make_from_value i j t (some old) v = (t, [])

  abbrev pub assign_value :
      ℕ → ℕ → Values → Option (Option (Callable A F)) → Option (Option (Callable A F)) → Answer
  assign_value i j t none v = (t, [])
  assign_value i j t (some old) none = (t, [])
  assign_value i j t (some old) (some v) = if i == j then (t, []) else move_value i j t v

  abbrev pub call_value : ℕ → X → Values → Option (Option (Callable A F)) → Answer
  call_value i x t none = (t, [])
  call_value i x t (some none) = (t, none ∷ [])
  call_value i x t (some (some (Callable.object a))) =
      let (r, b) = apply a x in (set_at t i (some (some (Callable.object b))), some r ∷ [])
  call_value i x t (some (some (Callable.function f))) =
      (set_at t i (some (some (Callable.function f))), some (run f x) ∷ [])

  abbrev pub end_value : ℕ → Values → Option (Option (Callable A F)) → Answer
  end_value i t none = (t, [])
  end_value i t (some v) = (set_at t i none, [])

  abbrev pub step_values : Operation A F X → Values → Answer
  step_values (Operation.makes i) t = make_value i none t (t i)
  step_values (Operation.makes_object i a) t = make_value i (some (Callable.object a)) t (t i)
  step_values (Operation.makes_function i f) t = make_value i (some (Callable.function f)) t (t i)
  step_values (Operation.makes_from i j) t = make_from_value i j t (t i) (t j)
  step_values (Operation.moves i j) t = assign_value i j t (t i) (t j)
  step_values (Operation.calls i x) t = call_value i x t (t i)
  step_values (Operation.ends i) t = end_value i t (t i)

  abbrev pub run_values : List (Operation A F X) → Values → List (Option R)
  run_values [] t = []
  run_values (o ∷ rest) t = let (t', replies) = step_values o t in replies ++ run_values rest t'
