-- ===== src/ThreadPool/FixedFunction/Moves.antt =====
-- fixed-function.hpp: programs over `FixedFunction` objects do what the specification says.
use mathlib.Core.Option
use limb_worker.Prelude.{ℕ, ◌≡◌, Option, Outcome}
use limb_worker.ThreadPool.FixedFunction.{FixedFunction, Places, Result}
use limb_worker.ThreadPool.FixedFunction.Values.{Values, Answer}
use limb_worker.ThreadPool.FixedFunction.Shapes.{Shape, concrete, value}

module _ {ℓ} {A F X R : Type ℓ} (apply : A → X → R × A) (run : F → X → R) where
  -- Each place holds an object of some shape, and the specification its value.
  Same : Places apply run → Values apply run → Type ℓ
  Same s t =
      (i : ℕ)
      → (o : Option (Shape A F)) × (s i ≡ Option.map concrete o) × (t i ≡ Option.map value o)

  Follows : Result apply run → Answer apply run → Type ℓ
  unfolding Same
  Follows result spec = (s : Places apply run) × (result ≡ Outcome.done (s, spec.1)) × Same s spec.0
