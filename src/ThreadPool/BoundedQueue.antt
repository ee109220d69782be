-- ===== src/ThreadPool/BoundedQueue.antt =====
-- include/thread-pool/limb-queue.hpp: `MPMCBoundedQueue<T>`, step by step. Each step of `push` and
-- `pop` is one access to shared memory; `size_t` and `intptr_t` have 64 bits and wrap.
pub mod Words
pub mod Runs
pub mod Window
pub mod Fifo
pub mod Threads
use Prim.Native.Nat.{bit_and}
use limb_worker.Prelude.{
  ℕ, zero, suc, ◌+◌, ◌-◌, ◌%◌, ◌^◌, Bool, true, false, not, ◌&&◌, Option, none, some, List, [], ◌∷◌,
  ltb, leb, ◌==◌, if◌then◌else◌, get_elem?, set,
}

abbrev pub size_mod : ℕ
size_mod = 2 ^ 64

-- `size_t` addition.
abbrev pub add_size : ℕ → ℕ → ℕ
add_size a b = (a + b) % size_mod

-- `payload` is `none` for a `T` that is default-constructed or has been moved from.
pub record Cell {ℓ} (A : Type ℓ) : Type ℓ where
  pub sequence : ℕ
  pub payload : Option A

pub record Queue {ℓ} (A : Type ℓ) : Type ℓ where
  pub buffer : List (Cell A)
  pub buffer_mask : ℕ
  pub enqueue_pos : ℕ
  pub dequeue_pos : ℕ

-- The sign of `(intptr_t)a - (intptr_t)b`, a wrapped 64-bit difference.
pub data Sign : Type 0 where
  negative same positive : Sign

unfoldable pub diff_sign : ℕ → ℕ → Sign
diff_sign a b =
    let d = (a + size_mod - b) % size_mod in
    if d == 0 then Sign.same else if ltb d (2 ^ 63) then Sign.positive else Sign.negative

module _ {ℓ} {A : Type ℓ} where
  -- The constructor's loop, from index `i` on.
  unfoldable pub fresh_cells : ℕ → ℕ → List (Cell A)
  fresh_cells zero i = []
  fresh_cells (suc n) i = record { sequence = i; payload = none } ∷ fresh_cells n (suc i)

  -- `none` is `std::invalid_argument`.
  unfoldable pub make : ℕ → Option (Queue A)
  make size =
      if leb 2 size && (bit_and size (size - 1) == 0)
      then some (record {
        buffer = fresh_cells size 0;
        buffer_mask = size - 1;
        enqueue_pos = 0;
        dequeue_pos = 0;
      })
      else none

  unfoldable pub cell_index : Queue A → ℕ → ℕ
  cell_index q pos = bit_and pos q.buffer_mask

  -- The cell that `m_buffer[pos & m_buffer_mask]` names; `none` is an access out of range.
  unfoldable pub cell_at : Queue A → ℕ → Option (Cell A)
  unfolding cell_index
  cell_at q pos = get_elem? q.buffer (cell_index q pos)

  unfoldable pub put_cell : Queue A → ℕ → Cell A → Queue A
  unfolding cell_index
  put_cell q pos c = record q { buffer = set q.buffer (cell_index q pos) c }

-- Where a thread stands in `push`; the numbers are its local `pos`.
pub data PushPc {ℓ} (A : Type ℓ) : Type ℓ where
  load_pos : A → PushPc A
  load_sequence : ℕ → A → PushPc A
  exchange : ℕ → A → PushPc A
  write : ℕ → A → PushPc A
  publish : ℕ → PushPc A
  returned : Bool → PushPc A
  fault : PushPc A

pub data PopPc {ℓ} (A : Type ℓ) : Type ℓ where
  load_pos : PopPc A
  load_sequence : ℕ → PopPc A
  exchange : ℕ → PopPc A
  read : ℕ → PopPc A
  release : ℕ → Option A → PopPc A
  returned : Option A → Bool → PopPc A
  fault : PopPc A

module _ {ℓ} {A : Type ℓ} where
  -- `weak` says that the exchange fails though the value is the one expected.
  unfoldable pub push_step : Bool → Queue A → PushPc A → Queue A × PushPc A
  unfolding cell_at put_cell
  push_step weak q (PushPc.load_pos a) = (q, PushPc.load_sequence q.enqueue_pos a)
  push_step weak q (PushPc.load_sequence pos a) = elim (cell_at q pos) [
    | none ↦ (q, PushPc.fault)
    | some cell ↦ elim (diff_sign cell.sequence pos) [
      | Sign.same ↦ (q, PushPc.exchange pos a)
      | Sign.negative ↦ (q, PushPc.returned false)
      | Sign.positive ↦ (q, PushPc.load_sequence q.enqueue_pos a)
    ]
  ]
  push_step weak q (PushPc.exchange pos a) =
      if q.enqueue_pos == pos && not weak
      then (record q { enqueue_pos = add_size pos 1 }, PushPc.write pos a)
      else (q, PushPc.load_sequence q.enqueue_pos a)
  push_step weak q (PushPc.write pos a) = elim (cell_at q pos) [
    | none ↦ (q, PushPc.fault)
    | some cell ↦ (put_cell q pos (record cell { payload = some a }), PushPc.publish pos)
  ]
  push_step weak q (PushPc.publish pos) = elim (cell_at q pos) [
    | none ↦ (q, PushPc.fault)
    | some cell ↦ (put_cell q pos (record cell { sequence = add_size pos 1 }), PushPc.returned true)
  ]
  push_step weak q (PushPc.returned ok) = (q, PushPc.returned ok)
  push_step weak q PushPc.fault = (q, PushPc.fault)

  unfoldable pub pop_step : Bool → Queue A → PopPc A → Queue A × PopPc A
  unfolding cell_at put_cell
  pop_step weak q PopPc.load_pos = (q, PopPc.load_sequence q.dequeue_pos)
  pop_step weak q (PopPc.load_sequence pos) = elim (cell_at q pos) [
    | none ↦ (q, PopPc.fault)
    | some cell ↦ elim (diff_sign cell.sequence (add_size pos 1)) [
      | Sign.same ↦ (q, PopPc.exchange pos)
      | Sign.negative ↦ (q, PopPc.returned none false)
      | Sign.positive ↦ (q, PopPc.load_sequence q.dequeue_pos)
    ]
  ]
  pop_step weak q (PopPc.exchange pos) =
      if q.dequeue_pos == pos && not weak
      then (record q { dequeue_pos = add_size pos 1 }, PopPc.read pos)
      else (q, PopPc.load_sequence q.dequeue_pos)
  pop_step weak q (PopPc.read pos) = elim (cell_at q pos) [
    | none ↦ (q, PopPc.fault)
    | some cell ↦ (put_cell q pos (record cell { payload = none }), PopPc.release pos cell.payload)
  ]
  pop_step weak q (PopPc.release pos out) = elim (cell_at q pos) [
    | none ↦ (q, PopPc.fault)
    | some cell ↦ (
      put_cell q pos (record cell { sequence = add_size (add_size pos q.buffer_mask) 1 }),
      PopPc.returned out true,
    )
  ]
  pop_step weak q (PopPc.returned out ok) = (q, PopPc.returned out ok)
  pop_step weak q PopPc.fault = (q, PopPc.fault)

  push_rounds : ℕ → Queue A → PushPc A → Option (Queue A × Bool)
  push_rounds zero q pc = none
  push_rounds (suc fuel) q (PushPc.returned ok) = some (q, ok)
  push_rounds (suc fuel) q pc = let (q', pc') = push_step false q pc in push_rounds fuel q' pc'

  pop_rounds : ℕ → Queue A → PopPc A → Option (Queue A × Option A × Bool)
  pop_rounds zero q pc = none
  pop_rounds (suc fuel) q (PopPc.returned out ok) = some (q, out, ok)
  pop_rounds (suc fuel) q pc = let (q', pc') = pop_step false q pc in pop_rounds fuel q' pc'

  -- A call that no other thread interrupts. It takes five steps, and one to return.
  pub push : Queue A → A → Option (Queue A × Bool)
  unfolding push_rounds push_step
  push q a = push_rounds 6 q (PushPc.load_pos a)

  pub pop : Queue A → Option (Queue A × Option A × Bool)
  unfolding pop_rounds pop_step
  pop q = pop_rounds 6 q PopPc.load_pos
