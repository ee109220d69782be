-- ===== src/ThreadPool/Tests/Functors.antt =====
-- Programs over `FixedFunction` objects: a counter as an object, and functions that add a number.
use limb_worker.Prelude.{ℕ, ◌+◌, ◌≡◌, refl, some, none, List, [], ◌∷◌}
use limb_worker.ThreadPool.FixedFunction.{Operation}
use limb_worker.ThreadPool.FixedFunction.Values.{run_values}

abbrev count : ℕ → ℕ → ℕ × ℕ
count a x = (a + x, a + 1)

abbrev add : ℕ → ℕ → ℕ
add f x = f + x

-- A counter is called, moved and called again; its old place is empty, and takes a function.
abbrev moving : List (Operation ℕ ℕ ℕ)
moving =
    Operation.makes_object 0 5
    ∷ Operation.calls 0 1
    ∷ Operation.makes_from 1 0
    ∷ Operation.calls 1 1
    ∷ Operation.calls 0 1
    ∷ Operation.makes_function 2 100
    ∷ Operation.moves 0 2
    ∷ Operation.calls 0 1
    ∷ Operation.moves 1 0
    ∷ Operation.calls 1 2
    ∷ Operation.ends 0
    ∷ Operation.ends 1
    ∷ Operation.ends 2
    ∷ []

replies :
    run_values count add moving (λ i. none) ≡ some 6 ∷ some 7 ∷ none ∷ some 101 ∷ some 102 ∷ []
replies = refl
