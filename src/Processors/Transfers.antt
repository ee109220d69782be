-- ===== src/Processors/Transfers.antt =====
-- What a component takes and gives back, in order.
use limb_worker.Prelude.{ℕ, Option, none, some, List, [], ◌∷◌, ◌==◌, if◌then◌else◌}

pub data Transfer {ℓ} (R : Type ℓ) : Type ℓ where
  takes frees : R → Transfer R

-- Resources are told apart by a number.
module _ {ℓ} {R : Type ℓ} (number : R → ℕ) where
  abbrev pub drop_one : R → List R → Option (List R)
  drop_one r [] = none
  drop_one r (x ∷ xs) =
      let rest = drop_one r xs in
      if number x == number r
      then some xs
      else (elim rest [ none ↦ none | some ys ↦ some (x ∷ ys) ])

  -- What is held after the events: `none` where something is given back that is not held.
  abbrev pub held : List R → List (Transfer R) → Option (List R)
  held rs [] = some rs
  held rs (Transfer.takes r ∷ es) = held (r ∷ rs) es
  held rs (Transfer.frees r ∷ es) = elim (drop_one r rs) [ none ↦ none | some rest ↦ held rest es ]
