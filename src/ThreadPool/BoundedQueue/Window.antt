-- ===== src/ThreadPool/BoundedQueue/Window.antt =====
-- limb-queue.hpp: the representation of a list by the ring between `m_dequeue_pos` and
-- `m_enqueue_pos`, and that `push` and `pop` keep it.
use Prim.Native.Nat.{bit_and}
use native.Mathlib.Nat.{mod-add-mod, mod-lt, add-mod_right}
use native.Mathlib.Decide.{dec_lt}
use limb_worker.Prelude.{
  ℕ, zero, suc, ◌+◌, ◌-◌, ◌%◌, ◌^◌, ◌≤◌, ◌<◌, ◌≡◌, ◌≢◌, ◌⊎◌, inl, inr, refl, sym, ap, ◌∙◌, Option,
  none, some, List, [], ◌∷◌, ◌++◌, arith, length, get_elem?, set, length-append, length-set,
  get_elem?-set_self, get_elem?-set_ne,
}
use limb_worker.Prelude.Bits.{bit_and_mask, pow-pos}
use limb_worker.ThreadPool.BoundedQueue.{Queue, Cell, size_mod, add_size, cell_index}
use limb_worker.ThreadPool.BoundedQueue.Words.{mod_word, mod-injective}
use limb_worker.ThreadPool.BoundedQueue.Runs.{pushed, popped}

module _ {ℓ} {A : Type ℓ} where
  -- The queue, of 2 ^ k cells, holds `xs`, oldest first.
  pub record Holds (k : ℕ) (q : Queue A) (xs : List A) : Type ℓ where
    pub large : 1 ≤ k
    pub small : k ≤ 63
    pub cells : length q.buffer ≡ 2 ^ k
    pub mask : q.buffer_mask ≡ 2 ^ k - 1
    pub fits : length xs ≤ 2 ^ k
    pub in_word : q.dequeue_pos < size_mod
    pub ends : q.enqueue_pos ≡ (q.dequeue_pos + length xs) % size_mod
    pub full :
        (i : ℕ) {x : A}
        → get_elem? xs i ≡ some x
        → get_elem? q.buffer ((q.dequeue_pos + i) % 2 ^ k)
          ≡ some (record { sequence = (q.dequeue_pos + i + 1) % size_mod; payload = some x })
    pub free :
        (i : ℕ)
        → length xs ≤ i
        → i < 2 ^ k
        → (c : Option A) × (get_elem? q.buffer ((q.dequeue_pos + i) % 2 ^ k)
            ≡ some (record { sequence = (q.dequeue_pos + i) % size_mod; payload = c }))

module _ {ℓ} {A : Type ℓ} where
  -- An entry of a list with one more at the end.
  pub get_elem?-snoc :
      (xs : List A) (a : A) (i : ℕ) {x : A}
      → get_elem? (xs ++ a ∷ []) i ≡ some x
      → ((i < length xs) × (get_elem? xs i ≡ some x)) ⊎ ((i ≡ length xs) × (a ≡ x))
  get_elem?-snoc [] a zero e = inr (refl, cc)
  get_elem?-snoc [] a (suc i) e = absurd (cc)
  get_elem?-snoc (y ∷ ys) a zero e = inl (omega arith, e)
  get_elem?-snoc (y ∷ ys) a (suc i) e = ground (arith, get_elem?-snoc ys a i e)

  pub get_elem?-lt : (xs : List A) (i : ℕ) {x : A} → get_elem? xs i ≡ some x → i < length xs
  get_elem?-lt [] i e = absurd (cc)
  get_elem?-lt (y ∷ ys) zero e = omega arith
  get_elem?-lt (y ∷ ys) (suc i) e = omega (arith, get_elem?-lt ys i e)

module _ {ℓ} {A : Type ℓ} {k : ℕ} {q : Queue A} {xs : List A} (v : Holds k q xs) where
  open v use {large, small, cells, mask, fits, in_word, ends, full, free}

  pub slot : (pos : ℕ) → cell_index q pos ≡ pos % 2 ^ k
  unfolding cell_index
  slot pos = ap (bit_and pos) mask ∙ bit_and_mask k pos

  pub slot-lt : (pos : ℕ) → cell_index q pos < length q.buffer
  slot-lt pos = rw (slot, cells) (mod-lt pos (pow-pos k))

  pub last_slot : cell_index q q.enqueue_pos ≡ (q.dequeue_pos + length xs) % 2 ^ k
  last_slot = slot q.enqueue_pos ∙ ap (λ (t : ℕ). t % 2 ^ k) ends ∙ mod_word k _ small

  pub away :
      (h j : ℕ)
      → h < 2 ^ k
      → j < 2 ^ k
      → h ≢ j
      → (q.dequeue_pos + h) % 2 ^ k ≢ (q.dequeue_pos + j) % 2 ^ k
  away h j p r ne e = ne (mod-injective (2 ^ k) q.dequeue_pos h j p r e)

  pub push_keeps :
      (j : ℕ) (c : Cell A)
      → j < 2 ^ k
      → length xs < 2 ^ k
      → length xs ≢ j
      → get_elem? (set q.buffer (cell_index q q.enqueue_pos) c) ((q.dequeue_pos + j) % 2 ^ k)
        ≡ get_elem? q.buffer ((q.dequeue_pos + j) % 2 ^ k)
  push_keeps j c p room ne =
      get_elem?-set_ne q.buffer c (rw last_slot (away (length xs) j room p ne))

  pub push_sets :
      (j : ℕ) (c : Cell A)
      → j ≡ length xs
      → get_elem? (set q.buffer (cell_index q q.enqueue_pos) c) ((q.dequeue_pos + j) % 2 ^ k)
        ≡ some c
  push_sets j c e =
      ap (λ t. get_elem? (set q.buffer (cell_index q q.enqueue_pos) c) t)
        (ap (λ (t : ℕ). (q.dequeue_pos + t) % 2 ^ k) e ∙ sym last_slot)
      ∙ get_elem?-set_self q.buffer _ c (slot-lt q.enqueue_pos)

  pub push-Holds : (a : A) → length xs < 2 ^ k → Holds k (pushed q a) (xs ++ a ∷ [])
  push-Holds a room = record {
    large = large;
    small = small;
    cells = length-set q.buffer _ _ ∙ cells;
    mask = mask;
    fits = omega (arith, length-append {ℓ} xs (a ∷ []));
    in_word = in_word;
    ends = omega (arith, ends, length-append {ℓ} xs (a ∷ []));
    full = λ i {x} e. elim (get_elem?-snoc xs a i e) [
      | inl (h, e') ↦ push_keeps i _ (omega arith) room (omega arith) ∙ full i e'
      | inr (h, e') ↦ push_sets i _ h ∙ ground (arith, ends)
    ];
    free = λ i p r.
        let n = length-append {ℓ} xs (a ∷ []) in
        let (c, e) = free i (omega (arith, n)) r in
        (c, push_keeps i _ r room (omega (arith, n)) ∙ e);
  }

  -- The oldest entry's place.
  pub first_slot : cell_index q q.dequeue_pos ≡ (q.dequeue_pos + 0) % 2 ^ k
  first_slot = slot q.dequeue_pos ∙ ap (λ (t : ℕ). t % 2 ^ k) (omega arith)

  -- After a pop the place `j` steps on was `j + 1` steps on.
  pub turned : (j : ℕ) → (add_size q.dequeue_pos 1 + j) % 2 ^ k ≡ (q.dequeue_pos + suc j) % 2 ^ k
  turned j =
      sym (mod-add-mod (add_size q.dequeue_pos 1) (2 ^ k) j)
      ∙ ap (λ (t : ℕ). (t + j) % 2 ^ k) (mod_word k (q.dequeue_pos + 1) small)
      ∙ mod-add-mod (q.dequeue_pos + 1) (2 ^ k) j
      ∙ ap (λ (t : ℕ). t % 2 ^ k) (omega arith)

  pub pop_keeps :
      (j : ℕ) (c : Cell A)
      → suc j < 2 ^ k
      → get_elem?
          (set q.buffer (cell_index q q.dequeue_pos) c)
          ((add_size q.dequeue_pos 1 + j) % 2 ^ k)
        ≡ get_elem? q.buffer ((q.dequeue_pos + suc j) % 2 ^ k)
  pop_keeps j c p =
      ap (λ t. get_elem? (set q.buffer (cell_index q q.dequeue_pos) c) t) (turned j)
      ∙ get_elem?-set_ne q.buffer c (rw first_slot (away 0 (suc j) (omega arith) p (omega arith)))

  pub pop_sets :
      (j : ℕ) (c : Cell A)
      → suc j ≡ 2 ^ k
      → get_elem?
          (set q.buffer (cell_index q q.dequeue_pos) c)
          ((add_size q.dequeue_pos 1 + j) % 2 ^ k)
        ≡ some c
  pop_sets j c e =
      ap (λ t. get_elem? (set q.buffer (cell_index q q.dequeue_pos) c) t)
        (turned j
          ∙ ap (λ (t : ℕ). (q.dequeue_pos + t) % 2 ^ k) e
          ∙ add-mod_right q.dequeue_pos (2 ^ k)
          ∙ sym (slot q.dequeue_pos))
      ∙ get_elem?-set_self q.buffer _ c (slot-lt q.dequeue_pos)

module _ {ℓ} {A : Type ℓ} {k : ℕ} {q : Queue A} {x : A} {xs : List A} (v : Holds k q (x ∷ xs)) where
  open v use {large, small, cells, mask, fits, in_word, ends, full, free}

  pub pop-Holds : Holds k (popped q) xs
  pop-Holds = record {
    large = large;
    small = small;
    cells = length-set q.buffer _ _ ∙ cells;
    mask = mask;
    fits = omega arith;
    in_word = omega arith;
    ends = omega (arith, ends);
    full = λ i {x = y} e.
        let h = get_elem?-lt xs i e in
        pop_keeps v i _ (omega arith) ∙ full (suc i) e ∙ ground arith;
    free = λ i p r. elim (dec_lt (suc i) (2 ^ k)) [
      | yes h ↦
          let (c, e) = free (suc i) (omega arith) h in (c, pop_keeps v i _ h ∙ e ∙ ground arith)
      | no h ↦ (none, pop_sets v i _ (omega arith) ∙ ground (arith, mask, pow-pos k))
    ];
  }
