-- ===== src/ThreadPool/BoundedQueue/Threads/Coherent.antt =====
-- limb-queue.hpp: the invariant of a queue that threads share. Positions are not wrapped here.
use native.Mathlib.Nat.{add-mod_right}
use limb_worker.Prelude.{
  ℕ, ◌+◌, ◌%◌, ◌≤◌, ◌<◌, ◌≡◌, ◌≢◌, ◌⊎◌, inl, inr, refl, sym, ap, ◌∙◌, Bool-cases, Option, none,
  some, List, [], ◌∷◌, ◌==◌, if◌then◌else◌, arith, length, get_elem?,
}
use limb_worker.ThreadPool.BoundedQueue.{Cell}
use limb_worker.ThreadPool.BoundedQueue.Words.{mod-injective}
use limb_worker.ThreadPool.BoundedQueue.Threads.{Thread, update}
use limb_worker.ThreadPool.BoundedQueue.Threads.Views.{
  writer, reader, seen, loaded, carried, filled, faulted, each, Unique, Unique-update, update-same,
}

module _ {ℓ} {A : Type ℓ} where
  -- The positions of the entries that left are distinct and behind, their cells are used again, and
  -- each entry is the one that entered at its position.
  abbrev pub Elsewhere : ℕ → List (ℕ × Option A) → Type 0
  Elsewhere p [] = Unit {0}
  Elsewhere p ((r, out) ∷ rest) = (p ≢ r) × Elsewhere p rest

  pub record Left (c deq : ℕ) (cell : ℕ → Cell A) (entered : List A) (v : ℕ × Option A)
      : Type ℓ where
    pub behind : v.0 < deq
    pub reused : v.0 + c ≤ (cell v.0).sequence
    pub entry : get_elem? entered v.0 ≡ v.1

  abbrev pub Gone : ℕ → ℕ → (ℕ → Cell A) → List A → List (ℕ × Option A) → Type ℓ
  Gone c deq cell entered [] = Unit {ℓ}
  Gone c deq cell entered (v ∷ rest) =
      Left c deq cell entered v × Elsewhere v.0 rest × Gone c deq cell entered rest

  abbrev pub HasLeft : ℕ → List (ℕ × Option A) → Type 0
  HasLeft p [] = ⊥
  HasLeft p ((r, out) ∷ rest) = (p ≡ r) ⊎ HasLeft p rest

  -- A position that `pop` took has left, or a thread is emptying its cell.
  abbrev pub Accounted : ℕ → (ℕ → Thread A) → List (ℕ × Option A) → Type 0
  Accounted deq threads left =
      (p : ℕ) → p < deq → HasLeft p left ⊎ ((j : ℕ) × (reader (threads j) ≡ some p))

  pub Accounted-same :
      (deq : ℕ) (threads : ℕ → Thread A) (left : List (ℕ × Option A)) (i : ℕ) (t : Thread A)
      → reader t ≡ reader (threads i)
      → Accounted deq threads left
      → Accounted deq (update threads i t) left
  Accounted-same deq threads left i t same all p below = elim (all p below) [
    | inl out ↦ inl out
    | inr (j, e) ↦ inr (j, update-same reader threads i t j p same e)
  ]

  pub record Coherent (c enq deq : ℕ) (cell : ℕ → Cell A) (threads : ℕ → Thread A)
      (entered : List A) (left : List (ℕ × Option A)) : Type ℓ where
    pub ordered : deq ≤ enq
    pub room : enq ≤ deq + c
    pub counted : length entered ≡ enq
    pub low : (p : ℕ) → (cell p).sequence ≤ deq + c
    pub ring : (p r : ℕ) → p % c ≡ r % c → cell p ≡ cell r
    pub saw : (j : ℕ) (v : ℕ × ℕ) → seen (threads j) ≡ some v → v.1 ≤ (cell v.0).sequence
    pub known : (j : ℕ) (p : ℕ) → loaded (threads j) ≡ some p → p ≤ enq
    pub fills : (j : ℕ) (p : ℕ) → writer (threads j) ≡ some p → (p < enq) × ((cell p).sequence ≡ p)
    pub empties :
        (j : ℕ) (p : ℕ) → reader (threads j) ≡ some p → (p < deq) × ((cell p).sequence ≡ p + 1)
    pub carries :
        (j : ℕ) (v : ℕ × Option A)
        → carried (threads j) ≡ some v
        → (v.0 < enq) × (get_elem? entered v.0 ≡ v.1)
    pub shows :
        (j : ℕ) (p : ℕ)
        → filled (threads j) ≡ some p
        → (p < enq) × ((cell p).payload ≡ get_elem? entered p)
    pub sound : (j : ℕ) (u : Unit {0}) → faulted (threads j) ≡ some u → ⊥
    pub one_writer : Unique writer threads
    pub one_reader : Unique reader threads
    pub busy :
        (p : ℕ)
        → deq ≤ p
        → p < enq
        → (((cell p).sequence ≡ p + 1) × ((cell p).payload ≡ get_elem? entered p))
          ⊎ ((j : ℕ) × (writer (threads j) ≡ some p))
    pub free :
        (p : ℕ)
        → enq ≤ p
        → p < deq + c
        → ((cell p).sequence ≡ p)
          ⊎ ((j : ℕ) × (r : ℕ) × (r + c ≡ p) × (reader (threads j) ≡ some r))
    pub accounted : Accounted deq threads left
    pub gone : Gone c deq cell entered left

  -- The cells after a write to the one of a position.
  abbrev pub put : ℕ → (ℕ → Cell A) → ℕ → Cell A → ℕ → Cell A
  put c cell p v r = if r % c == p % c then v else cell r

  pub put-cases :
      (c : ℕ) (cell : ℕ → Cell A) (p : ℕ) (v : Cell A) (r : ℕ)
      → ((r % c ≡ p % c) × (put c cell p v r ≡ v)) ⊎ ((r % c ≢ p % c) × (put c cell p v r ≡ cell r))
  put-cases c cell p v r = elim (Bool-cases (r % c == p % c)) [
    | inl same ↦ inl (ground arith, rw (same) refl)
    | inr other ↦ inr (λ e. ground arith, rw (other) refl)
  ]

  pub put-ring :
      (c : ℕ) (cell : ℕ → Cell A) (p : ℕ) (v : Cell A)
      → ((r s : ℕ) → r % c ≡ s % c → cell r ≡ cell s)
      → (r s : ℕ) → r % c ≡ s % c
      → put c cell p v r ≡ put c cell p v s
  put-ring c cell p v ring r s e = elim (put-cases c cell p v r) [
    | inl (here, there) ↦ elim (put-cases c cell p v s) [
      | inl (here', there') ↦ there ∙ sym there'
      | inr (other', there') ↦ absurd (other' (sym e ∙ here))
    ]
    | inr (other, there) ↦ elim (put-cases c cell p v s) [
      | inl (here', there') ↦ absurd (other (e ∙ here'))
      | inr (other', there') ↦ there ∙ ring r s e ∙ sym there'
    ]
  ]

-- Positions next to one another have different cells.
pub apart : (c p : ℕ) → 2 ≤ c → (p + 1) % c ≢ p % c
apart c p large e =
    let same : (p + 1) % c ≡ (p + 0) % c = e ∙ ap (λ t. t % c) (omega arith) in
    absurd (omega (arith, mod-injective c p 1 0 (omega arith) (omega arith) same))

module _ {ℓ} {A : Type ℓ} where
  pub Gone-grows :
      (c deq deq' : ℕ) (cell cell' : ℕ → Cell A) (entered entered' : List A)
      (left : List (ℕ × Option A))
      → deq ≤ deq'
      → ((p : ℕ) → (cell p).sequence ≤ (cell' p).sequence)
      → ((p : ℕ) → p < deq → get_elem? entered' p ≡ get_elem? entered p)
      → Gone c deq cell entered left
      → Gone c deq' cell' entered' left
  Gone-grows c deq deq' cell cell' entered entered' [] more grow keep gone = tt
  Gone-grows c deq deq' cell cell' entered entered' ((p, out) ∷ rest) more grow keep
        (first, other, gone) =
      (
        record {
          behind = omega (arith, first.behind, more);
          reused = omega (arith, first.reused, grow p);
          entry = keep p first.behind ∙ first.entry;
        },
        other,
        Gone-grows c deq deq' cell cell' entered entered' rest more grow keep gone,
      )

module _ {ℓ} {A : Type ℓ} {c enq deq : ℕ} {cell : ℕ → Cell A} {threads : ℕ → Thread A}
    {entered : List A} {left : List (ℕ × Option A)}
    (v : Coherent c enq deq cell threads entered left) where
  open v use {
    ordered, room, counted, low, ring, saw, known, fills, empties, carries, shows, sound,
    one_writer, one_reader, busy, free, accounted, gone,
  }

  -- Behind a whole round is the same cell.
  pub round : (p : ℕ) → cell (p + c) ≡ cell p
  round p = ring (p + c) p (add-mod_right p c)

  -- A thread that only looks moves on.
  pub look-Coherent :
      (i : ℕ) (t : Thread A)
      → writer t ≡ writer (threads i)
      → reader t ≡ reader (threads i)
      → ((u : ℕ × ℕ) → seen t ≡ some u → u.1 ≤ (cell u.0).sequence)
      → ((p : ℕ) → loaded t ≡ some p → p ≤ enq)
      → carried t ≡ none
      → filled t ≡ none
      → faulted t ≡ none
      → Coherent c enq deq cell (update threads i t) entered left
  look-Coherent i t same_writer same_reader see load carry fill fault = record {
    ordered = ordered;
    room = room;
    counted = counted;
    low = low;
    ring = ring;
    saw = each seen threads i t _ see (λ j u other e. saw j u e);
    known = each loaded threads i t _ load (λ j p other e. known j p e);
    fills =
        each writer threads i t _ (λ p e. fills i p (sym same_writer ∙ e))
          (λ j p other e. fills j p e);
    empties =
        each reader threads i t _ (λ p e. empties i p (sym same_reader ∙ e))
          (λ j p other e. empties j p e);
    carries = each carried threads i t _ (λ u e. absurd (cc)) (λ j u other e. carries j u e);
    shows = each filled threads i t _ (λ p e. absurd (cc)) (λ j p other e. shows j p e);
    sound = each faulted threads i t _ (λ u e. absurd (cc)) (λ j u other e. sound j u e);
    one_writer =
        Unique-update writer threads i t one_writer
          (λ p j e other d. other (one_writer j i p d (sym same_writer ∙ e)));
    one_reader =
        Unique-update reader threads i t one_reader
          (λ p j e other d. other (one_reader j i p d (sym same_reader ∙ e)));
    busy = λ p above below. elim (busy p above below) [
      | inl full ↦ inl full
      | inr (j, e) ↦ inr (j, update-same writer threads i t j p same_writer e)
    ];
    free = λ p above below. elim (free p above below) [
      | inl empty ↦ inl empty
      | inr (j, r, behind, e) ↦ inr (j, r, behind, update-same reader threads i t j r same_reader e)
    ];
    accounted = Accounted-same deq threads left i t same_reader accounted;
    gone = gone;
  }
