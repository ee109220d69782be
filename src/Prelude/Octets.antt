-- ===== src/Prelude/Octets.antt =====
-- Sequences of bytes.
use Prim.Native.Nat.{ℕ}
use mathlib.Core.Path.{◌≡◌, refl, ap, sym, ◌∙◌}
use mathlib.Core.List.{List, [], ◌∷◌, ◌++◌, append_assoc}

abbrev pub Bytes : Type 0
Bytes = List ℕ

abbrev pub joined : List Bytes → Bytes
joined [] = []
joined (c ∷ cs) = c ++ joined cs

pub joined-append : (xs ys : List Bytes) → joined (xs ++ ys) ≡ joined xs ++ joined ys
joined-append [] ys = refl
joined-append (x ∷ xs) ys =
    ap (λ zs. x ++ zs) (joined-append xs ys) ∙ sym (append_assoc x (joined xs) (joined ys))
