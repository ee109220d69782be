-- ===== src/ThreadPool/Sizing/Power.antt =====
-- bithacks.h: `nextPowerOfTwo` is the least power of two from its argument on.
use Prim.Native.Nat.{bit_or}
use native.Mathlib.Nat.{
  pow-suc, add-zero, mul_assoc, div-div-eq-div-mul, div-eq_of_lt, div-one, pow-le-pow_right,
  mod-add-div', mod-lt,
}
use native.Mathlib.Decide.{dec_lt, dec_le}
use limb_worker.Prelude.{
  ℕ, zero, suc, ◌+◌, ◌-◌, ◌*◌, ◌/◌, [], ◌^◌, ◌≤◌, ◌<◌, ◌≡◌, refl, sym, ap, ◌∙◌, subst, ◌⊎◌, inl,
  inr, max, arith, some,
}
use limb_worker.Prelude.Bits.{bit_or_mask, bit_or-shift, pow-pos, half_of_mask, div_even}
use limb_worker.ThreadPool.BoundedQueue.{Queue, make}
use limb_worker.ThreadPool.BoundedQueue.Fifo.{queue_refines}
use limb_worker.ThreadPool.Sizing.{smear, next_power_of_two, main_options}

pow_add : (i j : ℕ) → 2 ^ (i + j) ≡ 2 ^ i * 2 ^ j
pow_add i zero = rw add-zero (omega arith)
pow_add i (suc j) =
    let e : i + suc j ≡ suc (i + j) = omega arith in
    rw (e, pow-suc, pow-suc, pow_add i j) (mul_assoc (2 ^ i) (2 ^ j) 2)

sub_add : (m d : ℕ) → d ≤ m → m - d + d ≡ m
sub_add m d h = omega arith

-- The `m` digits above the lowest `d` are ones, and there are no more.
abbrev Ones : ℕ → ℕ → ℕ → Type 0
Ones d m v = v / 2 ^ d + 1 ≡ 2 ^ m

ones_shift : (j t : ℕ) → (2 ^ (j + t) - 1) / 2 ^ j ≡ 2 ^ t - 1
ones_shift zero t = div-one _ ∙ ap (λ (n : ℕ). 2 ^ n - 1) (omega arith)
ones_shift (suc j) t =
    let e : suc j + t ≡ suc (j + t) = omega arith in
    rw (e, pow-suc 2 j, div_even, half_of_mask) (ones_shift j t)

low-Ones : (d m v : ℕ) → d ≤ m → Ones d m v → v / 2 ^ m ≡ 2 ^ d - 1
low-Ones d m v h o =
    ap (λ (n : ℕ). v / 2 ^ n) {y = d + (m - d)} (omega arith)
    ∙ ap (λ (n : ℕ). v / n) (pow_add d (m - d))
    ∙ sym (div-div-eq-div-mul v (2 ^ d) (2 ^ (m - d)))
    ∙ ap (λ (n : ℕ). n / 2 ^ (m - d)) {y = 2 ^ (m - d + d) - 1}
        (omega (arith, o, ap (λ (n : ℕ). 2 ^ n) (sub_add m d h)))
    ∙ ones_shift (m - d) d

-- Half of the digits, at least, are ones: then all are.
smear-fills : (d m v : ℕ) → d ≤ m → Ones d m v → Ones 0 (d + m) (smear m v)
unfolding smear
smear-fills d m v h o = omega (
  arith,
  bit_or_mask d v,
  ap (λ (n : ℕ). bit_or v n) (low-Ones d m v h o),
  ap (λ (n : ℕ). n * 2 ^ d) o,
  pow_add d m,
)

smear-doubles : (e m v : ℕ) → Ones (e + m) m v → Ones e (m + m) (smear m v)
unfolding smear
smear-doubles e m v o =
    let split = λ (x y : ℕ).
      div-div-eq-div-mul v (2 ^ x) (2 ^ y) ∙ ap (λ (n : ℕ). v / n) (sym (pow_add x y)) in
    let swapped : v / 2 ^ m / 2 ^ e ≡ 2 ^ m - 1 =
      split m e ∙ ap (λ (n : ℕ). v / 2 ^ n) {y = e + m} (omega arith) ∙ omega (arith, o) in
    omega (
      arith,
      bit_or-shift e v (v / 2 ^ m),
      ap (λ (n : ℕ). bit_or (v / 2 ^ e) n) swapped,
      bit_or_mask m (v / 2 ^ e),
      ap (λ (n : ℕ). (n + 1) * 2 ^ m) (split e m),
      ap (λ (n : ℕ). n * 2 ^ m) o,
      pow_add m m,
    )

smear-full : (s m v : ℕ) → m ≤ s → Ones 0 m v → Ones 0 m (smear s v)
unfolding smear
smear-full s m v h o =
    let gone : v / 2 ^ s ≡ 0 =
      div-eq_of_lt (omega (arith, o, pow-le-pow_right {n = 2} (omega arith) {i = m} {j = s} h)) in
    omega (arith, bit_or_mask 0 v, ap (λ (n : ℕ). bit_or v n) gone, o)

-- `l` digits, of which the upper `min l s` are ones.
record Top (l s v : ℕ) : Type 0 where
  rest : ℕ
  ones : ℕ
  count : rest + ones ≡ l
  enough : (ones ≡ s) ⊎ ((ones ≤ s) × (rest ≡ 0))
  set_digits : Ones rest ones v

smear-Top : (l s v : ℕ) → Top l s v → Top l (s + s) (smear s v)
smear-Top l s v t = elim t.enough [
  | inr (h, z) ↦ record {
    rest = 0;
    ones = l;
    count = omega arith;
    enough = inr (omega (arith, t.count), refl);
    set_digits = smear-full s l v (omega (arith, t.count)) (
        subst (λ n. Ones 0 n v) (omega (arith, t.count))
          (subst (λ n. Ones n t.ones v) z t.set_digits));
  }
  | inl e ↦ elim (dec_le t.rest s) [
    | yes h ↦ record {
      rest = 0;
      ones = l;
      count = omega arith;
      enough = inr (omega (arith, t.count), refl);
      set_digits =
          subst (λ n. Ones 0 n (smear s v)) {x = t.rest + s} (omega (arith, t.count))
            (smear-fills t.rest s v h (subst (λ n. Ones t.rest n v) e t.set_digits));
    }
    | no h ↦ record {
      rest = t.rest - s;
      ones = s + s;
      count = omega (arith, t.count);
      enough = inl refl;
      set_digits = smear-doubles (t.rest - s) s v (
          subst (λ n. Ones (t.rest - s + s) n v) e
            (subst (λ n. Ones n t.ones v) (omega arith) t.set_digits));
    }
  ]
]

-- A number from 1 on has a first digit.
top_digit_below : (f v : ℕ) → v ≤ f → 1 ≤ v → (d : ℕ) × (v / 2 ^ d ≡ 1)
top_digit_below zero v h p = absurd (omega arith)
top_digit_below (suc f) v h p = elim (dec_le v 1) [
  | yes one ↦ (0, omega arith)
  | no more ↦
      let (d, e) = top_digit_below f (v / 2) (omega arith) (omega arith) in
      (suc d, ap (λ (n : ℕ). v / n) (pow-suc 2 d) ∙ div_even v (2 ^ d) ∙ e)
]

smeared : ℕ → ℕ
smeared u = smear 16 (smear 8 (smear 4 (smear 2 (smear 1 u))))

smeared-Top : (d u : ℕ) → u / 2 ^ d ≡ 1 → Top (suc d) 32 (smeared u)
unfolding smeared
smeared-Top d u e =
    smear-Top _ 16 _
      (smear-Top _ 8 _ (smear-Top _ 4 _ (smear-Top _ 2 _ (smear-Top (suc d) 1 u start))))
  where
    start : Top (suc d) 1 u
    start = record {
      rest = d;
      ones = 1;
      count = omega arith;
      enough = inl refl;
      set_digits = omega arith;
    }

smeared_lem : (d u : ℕ) → u / 2 ^ d ≡ 1 → d < 32 → smeared u + 1 ≡ 2 ^ suc d
smeared_lem d u e h =
    let t = smeared-Top d u e in
    let z : t.rest ≡ 0 = omega (arith, t.enough, t.count) in
    let o : t.ones ≡ suc d = omega (arith, t.count) in
    omega (
      arith,
      subst (λ n. Ones 0 n (smeared u)) o (subst (λ n. Ones n t.ones (smeared u)) z t.set_digits),
    )

digit_bounds : (d u : ℕ) → u / 2 ^ d ≡ 1 → (2 ^ d ≤ u) × (u < 2 ^ suc d)
digit_bounds d u e =
    let q = mod-add-div' u (2 ^ d) in
    let r = mod-lt u (pow-pos d) in
    let one_block = ap (λ (n : ℕ). n * 2 ^ d) e in omega (arith, q, r, one_block, pow-suc 2 d)

digit-lt : (d u : ℕ) → 2 ^ d ≤ u → u < 2 ^ 31 → d < 31
digit-lt d u lo h = elim (dec_lt d 31) [
  | yes small ↦ small
  | no large ↦
      absurd (omega (arith, pow-le-pow_right {n = 2} (omega arith) {i = 31} {j = d} (omega arith)))
]

-- For a `uint32_t` from 2 to 2 ^ 31 the result is a power of two, not below the argument, and less
-- than twice the argument (so no smaller power of two would do).
pub next_power_of_two_lem :
    (v : ℕ)
    → 2 ≤ v
    → v ≤ 2 ^ 31
    → (k : ℕ) × (1 ≤ k) × (k ≤ 31) × (next_power_of_two v ≡ 2 ^ k) × (v ≤ 2 ^ k) × (2 ^ k < 2 * v)
unfolding next_power_of_two smeared
next_power_of_two_lem v p h = elim (dec_le v 2) [
  | yes two ↦ (1, omega arith, omega arith, ground arith, omega arith, omega arith)
  | no more ↦
      let (d, e) = top_digit_below v (v - 1) (omega arith) (omega arith) in
      let (lo, hi) = digit_bounds d (v - 1) e in
      let small = digit-lt d (v - 1) lo (omega arith) in
      let top : 2 ^ suc d ≤ 2 ^ 31 = pow-le-pow_right {n = 2} (omega arith) {j = 31} small in
      (
        suc d,
        omega arith,
        small,
        ground (arith, smeared_lem d (v - 1) e),
        omega arith,
        omega (arith, pow-suc 2 d),
      )
]

power_chosen :
    (v : ℕ)
    → v ≤ 2 ^ 31
    → (k : ℕ) × (1 ≤ k) × (k ≤ 31) × (next_power_of_two v ≡ 2 ^ k) × (v ≤ 2 ^ k)
unfolding next_power_of_two
power_chosen v h = elim (dec_le 2 v) [
  | yes two ↦ let (k, p, r, e, le, _) = next_power_of_two_lem v two h in (k, p, r, e, le)
  | no less ↦ (1, omega arith, omega arith, ground arith, omega arith)
]

pow_lt : (i j : ℕ) → 2 ^ i < 2 ^ j → i < j
pow_lt i j h = elim (dec_lt i j) [
  | yes lt ↦ lt
  | no ge ↦
      absurd (omega (arith, pow-le-pow_right {n = 2} (omega arith) {i = j} {j = i} (omega arith)))
]

digit_eq : (d u : ℕ) → 2 ^ d ≤ u → u < 2 ^ suc d → 2 ^ 31 ≤ u → u < 2 ^ 32 → d ≡ 31
digit_eq d u lo hi p h = omega (arith, pow_lt d 32 (omega arith), pow_lt 31 (suc d) (omega arith))

-- Above 2 ^ 31 the sum wraps to 0.
pub next_power_of_two-wraps : (v : ℕ) → 2 ^ 31 < v → v < 2 ^ 32 → next_power_of_two v ≡ 0
unfolding next_power_of_two smeared
next_power_of_two-wraps v p h =
    let (d, e) = top_digit_below v (v - 1) (omega arith) (omega arith) in
    let (lo, hi) = digit_bounds d (v - 1) e in
    let d_eq : d ≡ 31 = digit_eq d (v - 1) lo hi (omega arith) (omega arith) in
    ground (arith, smeared_lem d (v - 1) e, ap (λ (n : ℕ). 2 ^ suc n) d_eq)

-- The queue that `main` asks for, on a machine with 1 to 2 ^ 31 - 1 hardware threads, is accepted by
-- the queue's constructor, has a place for each thread, and the pool has a thread at least.
pub main_options-make :
    (queue_count thd_count : ℕ)
    → thd_count < 2 ^ 31
    → let o = main_options queue_count thd_count in
      (1 ≤ o.thread_count)
      × (thd_count ≤ o.queue_size)
      × ((q : Queue ℕ) × (make o.queue_size ≡ some q))
unfolding main_options
main_options-make queue_count thd_count h =
    let (k, p, r, e, le) = power_chosen thd_count (omega arith) in
    let size : max 1 (next_power_of_two thd_count) ≡ 2 ^ k = omega (arith, pow-pos k) in
    let (q, made, _) = queue_refines ℕ k [] p (omega arith) in
    (omega arith, omega arith, (q, ap make size ∙ made))
