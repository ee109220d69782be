-- ===== src/Prelude/Outcomes.antt =====
-- What a call of the C++ code ends in.
use mathlib.Core.Path.{◌≡◌, refl}
use mathlib.Core.Logic.{◌⊎◌, inl, inr}

-- It returns, it throws, or it does something undefined (a call through the null pointer, the use of
-- an erased iterator, an access out of range).
pub data Outcome {ℓ} (A : Type ℓ) : Type ℓ where
  done : A → Outcome A
  throws : Outcome A
  undefined : Outcome A

infixl 5 ◌>>=◌
abbrev pub ◌>>=◌ {ℓ κ} : {A : Type ℓ} {B : Type κ} → Outcome A → (A → Outcome B) → Outcome B
Outcome.done a >>= f = f a
Outcome.throws >>= f = Outcome.throws
Outcome.undefined >>= f = Outcome.undefined

pub Outcome-cases {ℓ} :
    {A : Type ℓ} (o : Outcome A)
    → (o ≡ Outcome.throws) ⊎ (o ≡ Outcome.undefined) ⊎ ((a : A) × (o ≡ Outcome.done a))
Outcome-cases Outcome.throws = inl refl
Outcome-cases Outcome.undefined = inr (inl refl)
Outcome-cases (Outcome.done a) = inr (inr (a, refl))
