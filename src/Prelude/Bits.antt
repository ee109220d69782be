-- ===== src/Prelude/Bits.antt =====
-- Facts about `bit_and` and `bit_or` at variables: one step by the lowest digit, shifts, masks.
use Prim.Native.Nat.{
  ℕ, zero, suc, ◌+◌, ◌-◌, ◌*◌, ◌/◌, ◌%◌, ◌^◌, ◌≤◌, ◌<◌, min, max, bit_and, bit_or, digits,
  bit_and-bitwise, bit_or-bitwise,
}
use mathlib.Core.Path.{◌≡◌, refl, ap, sym}
use mathlib.Core.Logic.{◌≢◌}
use native.Mathlib.Nat.{pow-suc, mod-add-div', div-div-eq-div-mul, mul_comm, div-one, mod_self}
use native.Mathlib.Decide.{ℕ_discrete}
use native.Mathlib.Omega.{arith}

module _ (last : ℕ → ℕ) (join : ℕ → ℕ → ℕ) where
  -- The rounds do not count once there are as many as the first number.
  rounds-agree :
      (y x few many : ℕ) → x ≤ few → x ≤ many → digits last join few x y ≡ digits last join many x y
  rounds-agree y zero zero zero p q = refl
  rounds-agree y zero zero (suc many) p q = refl
  rounds-agree y zero (suc few) zero p q = refl
  rounds-agree y zero (suc few) (suc many) p q = refl
  rounds-agree y (suc x) zero many p q = absurd (omega (arith, p))
  rounds-agree y (suc x) (suc few) zero p q = absurd (omega (arith, q))
  rounds-agree y (suc x) (suc few) (suc many) p q =
      let e = rounds-agree (y / 2) (suc x / 2) few many (omega arith) (omega arith) in
      omega (arith, e)

zero-bit_and : (y : ℕ) → bit_and 0 y ≡ 0
zero-bit_and = bit_and-bitwise 0

zero-bit_or : (y : ℕ) → bit_or 0 y ≡ y
zero-bit_or = bit_or-bitwise 0

pub bit_and-halves : (x y : ℕ) → bit_and x y ≡ 2 * bit_and (x / 2) (y / 2) + min (x % 2) (y % 2)
bit_and-halves zero y = omega (arith, zero-bit_and y, zero-bit_and (y / 2))
bit_and-halves (suc x) y =
    let half = suc x / 2 in
    let e = rounds-agree (λ t. 0) min (y / 2) half x half (omega arith) (omega arith) in
    omega (arith, e, bit_and-bitwise half (y / 2), bit_and-bitwise (suc x) y)

pub bit_or-halves : (x y : ℕ) → bit_or x y ≡ 2 * bit_or (x / 2) (y / 2) + max (x % 2) (y % 2)
bit_or-halves zero y = omega (arith, zero-bit_or y, zero-bit_or (y / 2))
bit_or-halves (suc x) y =
    let half = suc x / 2 in
    let e = rounds-agree (λ t. t) max (y / 2) half x half (omega arith) (omega arith) in
    omega (arith, e, bit_or-bitwise half (y / 2), bit_or-bitwise (suc x) y)

pub pow-pos : (k : ℕ) → 0 < 2 ^ k
pow-pos zero = omega arith
pow-pos (suc k) = omega (arith, pow-suc 2 k, pow-pos k)

-- Division and remainder by an even number, from the half.
pub div_even : (x p : ℕ) → x / (p * 2) ≡ x / 2 / p
div_even x p = rw (div-div-eq-div-mul, mul_comm)

mod_even : (x p : ℕ) → x % (p * 2) ≡ x / 2 % p * 2 + x % 2
mod_even x p =
    let e = div_even x p in
    omega (arith, mod-add-div' x (p * 2), mod-add-div' (x / 2) p, ap (λ (t : ℕ). t * (p * 2)) e)

pub half_of_mask : (k : ℕ) → (2 ^ suc k - 1) / 2 ≡ 2 ^ k - 1
half_of_mask k = omega (arith, pow-suc 2 k, pow-pos k)

odd_mask : (k : ℕ) → (2 ^ suc k - 1) % 2 ≡ 1
odd_mask k = omega (arith, pow-suc 2 k, pow-pos k)

bit_and-zero_below : (n x : ℕ) → x ≤ n → bit_and x 0 ≡ 0
bit_and-zero_below n zero h = zero-bit_and 0
bit_and-zero_below zero (suc x) h = absurd (omega arith)
bit_and-zero_below (suc n) (suc x) h =
    omega (arith, bit_and-halves (suc x) 0, bit_and-zero_below n (suc x / 2) (omega arith))

bit_or-zero_below : (n x : ℕ) → x ≤ n → bit_or x 0 ≡ x
bit_or-zero_below n zero h = zero-bit_or 0
bit_or-zero_below zero (suc x) h = absurd (omega arith)
bit_or-zero_below (suc n) (suc x) h =
    omega (arith, bit_or-halves (suc x) 0, bit_or-zero_below n (suc x / 2) (omega arith))

bit_and_self_below : (n x : ℕ) → x ≤ n → bit_and x x ≡ x
bit_and_self_below n zero h = zero-bit_and 0
bit_and_self_below zero (suc x) h = absurd (omega arith)
bit_and_self_below (suc n) (suc x) h =
    omega (arith, bit_and-halves (suc x) (suc x), bit_and_self_below n (suc x / 2) (omega arith))

-- Masking with `k` ones keeps the `k` lowest digits.
pub bit_and_mask : (k x : ℕ) → bit_and x (2 ^ k - 1) ≡ x % 2 ^ k
bit_and_mask zero x = omega (arith, bit_and-zero_below x x (omega arith))
bit_and_mask (suc k) x = omega (
  arith,
  bit_and-halves x (2 ^ suc k - 1),
  ap (λ (t : ℕ). bit_and (x / 2) t) (half_of_mask k),
  bit_and_mask k (x / 2),
  odd_mask k,
  mod_even x (2 ^ k),
  ap (λ (t : ℕ). x % t) (pow-suc 2 k),
)

-- Setting the `k` lowest digits.
pub bit_or_mask : (k x : ℕ) → bit_or x (2 ^ k - 1) + 1 ≡ (x / 2 ^ k + 1) * 2 ^ k
bit_or_mask zero x = omega (arith, bit_or-zero_below x x (omega arith))
bit_or_mask (suc k) x = omega (
  arith,
  bit_or-halves x (2 ^ suc k - 1),
  ap (λ (t : ℕ). bit_or (x / 2) t) (half_of_mask k),
  bit_or_mask k (x / 2),
  odd_mask k,
  ap (λ (t : ℕ). (t + 1) * (2 ^ k * 2)) (div_even x (2 ^ k)),
  ap (λ (t : ℕ). (x / t + 1) * t) (pow-suc 2 k),
)

half_pred_odd : (n : ℕ) → n % 2 ≡ 1 → (n - 1) / 2 ≡ n / 2
half_pred_odd n h = omega arith

half_pred_even : (n : ℕ) → n % 2 ≢ 1 → 1 ≤ n → (n - 1) / 2 ≡ n / 2 - 1
half_pred_even n h p = omega arith

half_of_even : (n : ℕ) → n % 2 ≢ 1 → 1 ≤ n → bit_and n (n - 1) ≡ 0 → bit_and (n / 2) (n / 2 - 1) ≡ 0
half_of_even n h p e =
    omega
      (arith, bit_and-halves n (n - 1), ap (λ (t : ℕ). bit_and (n / 2) t) (half_pred_even n h p))

div-div : (a p : ℕ) → a / (p * 2) ≡ a / p / 2
div-div a p = sym (div-div-eq-div-mul a p 2)

-- A shift goes through `bit_or`.
pub bit_or-shift : (k a b : ℕ) → bit_or a b / 2 ^ k ≡ bit_or (a / 2 ^ k) (b / 2 ^ k)
bit_or-shift zero a b = rw (div-one, div-one, div-one)
bit_or-shift (suc k) a b =
    rw (pow-suc, div-div, div-div, div-div)
      (omega (arith, bit_or-shift k a b, bit_or-halves (a / 2 ^ k) (b / 2 ^ k)))

-- What the test `n & (n - 1)` tells: a power of two passes, and nothing else does.
pub pow-bit_and-pred : (k : ℕ) → bit_and (2 ^ k) (2 ^ k - 1) ≡ 0
pow-bit_and-pred k = rw bit_and_mask (mod_self (2 ^ k))

pow_of_bit_and_below : (f n : ℕ) → n ≤ f → 1 ≤ n → bit_and n (n - 1) ≡ 0 → (k : ℕ) × (n ≡ 2 ^ k)
pow_of_bit_and_below zero n h p e = absurd (omega arith)
pow_of_bit_and_below (suc f) n h p e = elim (ℕ_discrete (n % 2) 1) [
  | yes odd ↦ (
    0,
    omega (
      arith,
      bit_and-halves n (n - 1),
      ap (λ (t : ℕ). bit_and (n / 2) t) (half_pred_odd n odd),
      bit_and_self_below (n / 2) (n / 2) (omega arith),
    ),
  )
  | no even ↦
      let (k, e') =
        pow_of_bit_and_below f (n / 2) (omega arith) (omega arith) (half_of_even n even p e) in
      (suc k, omega (arith, e', pow-suc 2 k))
]

pub pow_of_bit_and : (n : ℕ) → 1 ≤ n → bit_and n (n - 1) ≡ 0 → (k : ℕ) × (n ≡ 2 ^ k)
pow_of_bit_and n = pow_of_bit_and_below n n (omega arith)
