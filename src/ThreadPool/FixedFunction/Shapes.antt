-- ===== src/ThreadPool/FixedFunction/Shapes.antt =====
-- fixed-function.hpp: what an object can be, and what moves make of it.

use limb_worker.Prelude.{◌≡◌, refl, true, false, Option, none, some, Outcome}
use limb_worker.ThreadPool.FixedFunction.{
  FixedFunction, Stored, Method, release, move_from_other, end,
}
use limb_worker.ThreadPool.FixedFunction.Values.{Callable}

-- What an object can be; the storage of a function that moved keeps its pointer.
pub data Shape {ℓ} (A F : Type ℓ) : Type ℓ where
  fresh moved : Shape A F
  holds_object : A → Shape A F
  holds_function moved_function : F → Shape A F

module _ {ℓ} {A F : Type ℓ} where
  abbrev pub concrete : Shape A F → FixedFunction A F
  concrete Shape.fresh = record { method_ptr = none; alloc_ptr = false; stored = Stored.nothing }
  concrete Shape.moved = record { method_ptr = none; alloc_ptr = true; stored = Stored.moved_from }
  concrete (Shape.holds_object a) = record {
    method_ptr = some Method.calls_object;
    alloc_ptr = true;
    stored = Stored.object a;
  }
  concrete (Shape.holds_function f) = record {
    method_ptr = some Method.calls_function;
    alloc_ptr = false;
    stored = Stored.function f;
  }
  concrete (Shape.moved_function f) = record {
    method_ptr = none;
    alloc_ptr = false;
    stored = Stored.function f;
  }

  abbrev pub value : Shape A F → Option (Callable A F)
  value Shape.fresh = none
  value Shape.moved = none
  value (Shape.holds_object a) = some (Callable.object a)
  value (Shape.holds_function f) = some (Callable.function f)
  value (Shape.moved_function f) = none

  abbrev pub left_behind : Shape A F → Shape A F
  left_behind Shape.fresh = Shape.fresh
  left_behind Shape.moved = Shape.moved
  left_behind (Shape.holds_object a) = Shape.moved
  left_behind (Shape.holds_function f) = Shape.moved_function f
  left_behind (Shape.moved_function f) = Shape.moved_function f

  pub value-left_behind : (q : Shape A F) → value (left_behind q) ≡ none
  value-left_behind Shape.fresh = refl
  value-left_behind Shape.moved = refl
  value-left_behind (Shape.holds_object a) = refl
  value-left_behind (Shape.holds_function f) = refl
  value-left_behind (Shape.moved_function f) = refl

  pub release-concrete :
      (p : Shape A F)
      → release (concrete p)
        ≡ Outcome.done (record (concrete p) { alloc_ptr = false; stored = Stored.nothing })
  unfolding release
  release-concrete Shape.fresh = refl
  release-concrete Shape.moved = refl
  release-concrete (Shape.holds_object a) = refl
  release-concrete (Shape.holds_function f) = refl
  release-concrete (Shape.moved_function f) = refl

  -- A move makes the target what the source was.
  pub move_from_other-concrete :
      (p q : Shape A F)
      → move_from_other (concrete p) (concrete q)
        ≡ Outcome.done (concrete q, concrete (left_behind q))
  unfolding move_from_other
  move_from_other-concrete p Shape.fresh = rw (release-concrete p) refl
  move_from_other-concrete p Shape.moved = rw (release-concrete p) refl
  move_from_other-concrete p (Shape.holds_object a) = rw (release-concrete p) refl
  move_from_other-concrete p (Shape.holds_function f) = rw (release-concrete p) refl
  move_from_other-concrete p (Shape.moved_function f) = rw (release-concrete p) refl

  pub end-concrete : (p : Shape A F) → end (concrete p) ≡ Outcome.done Stored.nothing
  unfolding end
  end-concrete Shape.fresh = refl
  end-concrete Shape.moved = refl
  end-concrete (Shape.holds_object a) = refl
  end-concrete (Shape.holds_function f) = refl
  end-concrete (Shape.moved_function f) = refl
