-- ===== src/ThreadPool/BoundedQueue/Threads/Cells.antt =====
-- limb-queue.hpp: the cells of a queue of 2 ^ k cells, by position.
use Prim.Native.Nat.{bit_and}
use native.Mathlib.Nat.{mod-lt}
use limb_worker.Prelude.{
  ℕ, zero, suc, ◌-◌, ◌%◌, ◌^◌, ◌<◌, ◌≡◌, ◌⊎◌, inl, inr, refl, ap, ◌∙◌, fun_ext, none, some, List,
  [], ◌∷◌, ◌==◌, if◌then◌else◌, arith, length, get_elem?, get_or, set, length-set,
}
use limb_worker.Prelude.Bits.{bit_and_mask, pow-pos}
use limb_worker.ThreadPool.BoundedQueue.{
  Queue, Cell, Sign, size_mod, diff_sign, cell_index, cell_at, put_cell,
}
use limb_worker.ThreadPool.BoundedQueue.Threads.Coherent.{put}

module _ {ℓ} {A : Type ℓ} where
  pub get_elem?-get_or :
      (xs : List A) (i : ℕ) (d : A) → i < length xs → get_elem? xs i ≡ some (get_or xs i d)
  get_elem?-get_or [] i d h = absurd (omega arith)
  get_elem?-get_or (x ∷ xs) zero d h = refl
  get_elem?-get_or (x ∷ xs) (suc i) d h = get_elem?-get_or xs i d (omega arith)

  get_or-set :
      (xs : List A) (i : ℕ) (v : A) (j : ℕ) (d : A)
      → i < length xs
      → get_or (set xs i v) j d ≡ (if j == i then v else get_or xs j d)
  get_or-set [] i v j d h = absurd (omega arith)
  get_or-set (x ∷ xs) zero v zero d h = refl
  get_or-set (x ∷ xs) zero v (suc j) d h = ground arith
  get_or-set (x ∷ xs) (suc i) v zero d h = ground arith
  get_or-set (x ∷ xs) (suc i) v (suc j) d h = ground (arith, get_or-set xs i v j d (omega arith))

module _ {ℓ} {A : Type ℓ} where
  pub no_cell : Cell A
  no_cell = record { sequence = 0; payload = none }

  unfoldable pub cells : ℕ → Queue A → ℕ → Cell A
  unfolding no_cell
  cells k q p = get_or q.buffer (p % 2 ^ k) no_cell

  -- The vector has 2 ^ k cells, and the mask fits.
  pub record IsRing (k : ℕ) (q : Queue A) : Type ℓ where
    pub count : length q.buffer ≡ 2 ^ k
    pub mask : q.buffer_mask ≡ 2 ^ k - 1

  pub cell_index_lem :
      (k : ℕ) (q : Queue A) (p : ℕ)
      → IsRing k q
      → (cell_index q p ≡ p % 2 ^ k) × (cell_index q p < length q.buffer)
  unfolding cell_index
  cell_index_lem k q p r =
      let here : bit_and p q.buffer_mask ≡ p % 2 ^ k = ap (bit_and p) r.mask ∙ bit_and_mask k p in
      (here, omega (arith, here, r.count, mod-lt p (pow-pos k)))

  pub get_elem?-cells :
      (k : ℕ) (q : Queue A) (p : ℕ)
      → IsRing k q
      → get_elem? q.buffer (p % 2 ^ k) ≡ some (cells k q p)
  unfolding cells
  get_elem?-cells k q p r =
      get_elem?-get_or q.buffer (p % 2 ^ k) no_cell (omega (arith, r.count, mod-lt p (pow-pos k)))

  pub cell_at-cells : (k : ℕ) (q : Queue A) (p : ℕ) → IsRing k q → cell_at q p ≡ some (cells k q p)
  unfolding cell_at cells
  cell_at-cells k q p r =
      let (here, inside) = cell_index_lem k q p r in
      get_elem?-get_or q.buffer (cell_index q p) no_cell inside
      ∙ ap (λ i. some (get_or q.buffer i no_cell)) here

  -- The counters are no cells.
  pub cells-counters :
      (k enq deq : ℕ) (q : Queue A)
      → cells k (record q { enqueue_pos = enq; dequeue_pos = deq }) ≡ cells k q
  unfolding cells
  cells-counters k enq deq q = refl

  pub put_cell-IsRing :
      (k : ℕ) (q : Queue A) (p : ℕ) (x : Cell A) → IsRing k q → IsRing k (put_cell q p x)
  unfolding put_cell
  put_cell-IsRing k q p x r = record {
    count = length-set q.buffer (cell_index q p) x ∙ r.count;
    mask = r.mask;
  }

  pub cells-put_cell :
      (k : ℕ) (q : Queue A) (p : ℕ) (x : Cell A)
      → IsRing k q
      → cells k (put_cell q p x) ≡ put (2 ^ k) (cells k q) p x
  unfolding put_cell cells
  cells-put_cell k q p x r = fun_ext (λ i.
      let (here, inside) = cell_index_lem k q p r in
      get_or-set q.buffer (cell_index q p) x (i % 2 ^ k) no_cell inside
      ∙ ap (λ (t : ℕ). if i % 2 ^ k == t then x else get_or q.buffer (i % 2 ^ k) no_cell) here)

pub Sign-cases : (s : Sign) → (s ≡ Sign.same) ⊎ (s ≡ Sign.negative) ⊎ (s ≡ Sign.positive)
Sign-cases Sign.same = inl refl
Sign-cases Sign.negative = inr (inl refl)
Sign-cases Sign.positive = inr (inr refl)

-- Numbers of one word with no difference are equal.
pub eq_of_diff_sign : (a b : ℕ) → a < size_mod → b < size_mod → diff_sign a b ≡ Sign.same → a ≡ b
unfolding diff_sign
eq_of_diff_sign a b p q e = ground arith
