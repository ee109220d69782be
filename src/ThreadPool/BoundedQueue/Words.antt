-- ===== src/ThreadPool/BoundedQueue/Words.antt =====
-- limb-queue.hpp: positions and sequence numbers modulo the word and modulo the ring.
use Prim.Native.Nat.{◌∣◌}
use native.Mathlib.Nat.{
  mod-mod_of_dvd, mod-add-mod, mod-eq_of_lt, mod-eq-sub-mod, mod-lt, add-zero, dvd_refl,
  pow-le-pow_right, dvd-mul_right_of_dvd, pow-suc,
}
use native.Mathlib.Decide.{dec_lt}
use limb_worker.Prelude.{
  ℕ, zero, suc, ◌+◌, ◌-◌, ◌%◌, ◌^◌, ◌≤◌, ◌<◌, ◌≡◌, ◌⊎◌, inl, inr, subst, arith,
}
use limb_worker.ThreadPool.BoundedQueue.{size_mod, diff_sign, Sign}

pub pow-dvd-pow : (k d : ℕ) → 2 ^ k ∣ 2 ^ (k + d)
pow-dvd-pow k zero = rw add-zero (dvd_refl (2 ^ k))
pow-dvd-pow k (suc d) =
    let e : k + suc d ≡ suc (k + d) = omega arith in
    rw (e, pow-suc) (dvd-mul_right_of_dvd (2 ^ k) (pow-dvd-pow k d) 2)

-- The word size is a multiple of the number of cells.
pub mod_word : (k n : ℕ) → k ≤ 63 → n % size_mod % 2 ^ k ≡ n % 2 ^ k
mod_word k n h =
    mod-mod_of_dvd (2 ^ k) n
      (subst (λ t. 2 ^ k ∣ 2 ^ t) {y = 64} (omega arith) (pow-dvd-pow k (64 - k)))

pub wrap_cases :
    (c r i : ℕ) → r < c → i < c → ((r + i) % c ≡ r + i) × (r + i < c) ⊎ ((r + i) % c + c ≡ r + i)
wrap_cases c r i p q = elim (dec_lt (r + i) c) [
  | yes h ↦ inl (mod-eq_of_lt h, h)
  | no h ↦ inr (
      omega (
        arith,
        mod-eq-sub-mod {n = r + i} {m = c} (omega arith),
        mod-eq_of_lt {n = r + i - c} {m = c} (omega arith),
      ))
]

-- Fewer than `c` steps round the ring lead elsewhere.
pub mod-injective : (c h i j : ℕ) → i < c → j < c → (h + i) % c ≡ (h + j) % c → i ≡ j
mod-injective c h i j p q e =
    let r = mod-lt h {m = c} (omega arith) in
    omega (
      arith,
      wrap_cases c (h % c) i r p,
      wrap_cases c (h % c) j r q,
      mod-add-mod h c i,
      mod-add-mod h c j,
    )

pub diff_sign_same : (a b : ℕ) → b < size_mod → a ≡ b → diff_sign a b ≡ Sign.same
unfolding diff_sign
diff_sign_same a b h e = ground arith

-- A sequence number up to 2 ^ 63 behind a position, whatever wraps.
pub diff_sign_behind :
    (a d s p : ℕ)
    → s ≡ a % size_mod
    → p ≡ (a + d) % size_mod
    → 0 < d
    → d ≤ 2 ^ 63
    → diff_sign s p ≡ Sign.negative
unfolding diff_sign
diff_sign_behind a d s p e e' pos h = ground arith

pub cap_bounds : (k : ℕ) → 1 ≤ k → k ≤ 63 → (2 ≤ 2 ^ k) × (2 ^ k ≤ 2 ^ 63)
cap_bounds k p h = (
  pow-le-pow_right {n = 2} (omega arith) {i = 1} {j = k} p,
  pow-le-pow_right {n = 2} (omega arith) h,
)
