-- ===== src/ThreadPool/BoundedQueue/Threads/Views.antt =====
-- limb-queue.hpp: what a thread holds on to, by where it stands.
use limb_worker.Prelude.{
  ℕ, ◌+◌, ◌≡◌, ◌≢◌, ◌⊎◌, inl, inr, refl, sym, ap, ◌∙◌, Bool-cases, Option, none, some, ◌==◌, arith,
}
use limb_worker.ThreadPool.BoundedQueue.{PushPc, PopPc}
use limb_worker.ThreadPool.BoundedQueue.Threads.{Thread, update}

module _ {ℓ} {A : Type ℓ} where
  -- The position whose cell the thread is filling.
  abbrev pub writer : Thread A → Option ℕ
  writer (Thread.pushing (PushPc.write pos a)) = some pos
  writer (Thread.pushing (PushPc.publish pos)) = some pos
  writer t = none

  -- The position whose cell the thread is emptying.
  abbrev pub reader : Thread A → Option ℕ
  reader (Thread.popping (PopPc.read pos)) = some pos
  reader (Thread.popping (PopPc.release pos out)) = some pos
  reader t = none

  -- A position and the least sequence number that its cell had when the thread looked.
  abbrev pub seen : Thread A → Option (ℕ × ℕ)
  seen (Thread.pushing (PushPc.exchange pos a)) = some (pos, pos)
  seen (Thread.popping (PopPc.exchange pos)) = some (pos, pos + 1)
  seen t = none

  -- A position that the thread has loaded.
  abbrev pub loaded : Thread A → Option ℕ
  loaded (Thread.pushing (PushPc.load_sequence pos a)) = some pos
  loaded (Thread.pushing (PushPc.exchange pos a)) = some pos
  loaded (Thread.popping (PopPc.load_sequence pos)) = some pos
  loaded (Thread.popping (PopPc.exchange pos)) = some pos
  loaded t = none

  -- A position and the entry that the thread has for it, or took from it.
  abbrev pub carried : Thread A → Option (ℕ × Option A)
  carried (Thread.pushing (PushPc.write pos a)) = some (pos, some a)
  carried (Thread.popping (PopPc.release pos out)) = some (pos, out)
  carried t = none

  -- A position whose entry lies in its cell, for this thread alone.
  abbrev pub filled : Thread A → Option ℕ
  filled (Thread.pushing (PushPc.publish pos)) = some pos
  filled (Thread.popping (PopPc.read pos)) = some pos
  filled t = none

  abbrev pub faulted : Thread A → Option (Unit {0})
  faulted (Thread.pushing PushPc.fault) = some tt
  faulted (Thread.popping PopPc.fault) = some tt
  faulted t = none

  -- A thread that fills a cell is its writer or its reader.
  pub filled-owner :
      (t : Thread A) {p : ℕ} → filled t ≡ some p → (writer t ≡ some p) ⊎ (reader t ≡ some p)
  filled-owner Thread.idle e = absurd (cc)
  filled-owner (Thread.pushing (PushPc.load_pos a)) e = absurd (cc)
  filled-owner (Thread.pushing (PushPc.load_sequence pos a)) e = absurd (cc)
  filled-owner (Thread.pushing (PushPc.exchange pos a)) e = absurd (cc)
  filled-owner (Thread.pushing (PushPc.write pos a)) e = absurd (cc)
  filled-owner (Thread.pushing (PushPc.publish pos)) e = inl e
  filled-owner (Thread.pushing (PushPc.returned ok)) e = absurd (cc)
  filled-owner (Thread.pushing PushPc.fault) e = absurd (cc)
  filled-owner (Thread.popping PopPc.load_pos) e = absurd (cc)
  filled-owner (Thread.popping (PopPc.load_sequence pos)) e = absurd (cc)
  filled-owner (Thread.popping (PopPc.exchange pos)) e = absurd (cc)
  filled-owner (Thread.popping (PopPc.read pos)) e = inr e
  filled-owner (Thread.popping (PopPc.release pos out)) e = absurd (cc)
  filled-owner (Thread.popping (PopPc.returned out ok)) e = absurd (cc)
  filled-owner (Thread.popping PopPc.fault) e = absurd (cc)

  pub update-cases :
      (f : ℕ → Thread A) (i : ℕ) (t : Thread A) (j : ℕ)
      → ((j ≡ i) × (update f i t j ≡ t)) ⊎ ((j ≢ i) × (update f i t j ≡ f j))
  update-cases f i t j = elim (Bool-cases (j == i)) [
    | inl same ↦ inl (ground arith, rw (same) refl)
    | inr other ↦ inr (λ e. ground arith, rw (other) refl)
  ]

module _ {ℓ κ ρ} {A : Type ℓ} {V : Type κ} (view : Thread A → Option V) (f : ℕ → Thread A) (i : ℕ)
    (t : Thread A) where
  -- What holds of every view after an update.
  pub each :
      (P : V → Type ρ)
      → ((v : V) → view t ≡ some v → P v)
      → ((j : ℕ) (v : V) → j ≢ i → view (f j) ≡ some v → P v)
      → (j : ℕ) (v : V) → view (update f i t j) ≡ some v
      → P v
  each P new old j v e = elim (update-cases f i t j) [
    | inl (same, there) ↦ new v (ap view (sym there) ∙ e)
    | inr (other, there) ↦ old j v other (ap view (sym there) ∙ e)
  ]

module _ {ℓ κ} {A : Type ℓ} {V : Type κ} (view : Thread A → Option V) where
  abbrev pub Unique : (ℕ → Thread A) → Type κ
  Unique f = (j l : ℕ) (v : V) → view (f j) ≡ some v → view (f l) ≡ some v → j ≡ l

  pub Unique-update :
      (f : ℕ → Thread A) (i : ℕ) (t : Thread A)
      → Unique f
      → ((v : V) (j : ℕ) → view t ≡ some v → j ≢ i → view (f j) ≢ some v)
      → Unique (update f i t)
  Unique-update f i t unique fresh j l v e d = elim (update-cases f i t j) [
    | inl (same, there) ↦ elim (update-cases f i t l) [
      | inl (same', there') ↦ same ∙ sym same'
      | inr (other', there') ↦
          absurd (fresh v l (ap view (sym there) ∙ e) other' (ap view (sym there') ∙ d))
    ]
    | inr (other, there) ↦ elim (update-cases f i t l) [
      | inl (same', there') ↦
          absurd (fresh v j (ap view (sym there') ∙ d) other (ap view (sym there) ∙ e))
      | inr (other', there') ↦ unique j l v (ap view (sym there) ∙ e) (ap view (sym there') ∙ d)
    ]
  ]

  -- A view of another thread stays.
  pub update-kept :
      (f : ℕ → Thread A) (i : ℕ) (t : Thread A) (j : ℕ) (v : V)
      → view (f j) ≡ some v
      → j ≢ i
      → view (update f i t j) ≡ some v
  update-kept f i t j v e other = elim (update-cases f i t j) [
    | inl (same, there) ↦ absurd (other same)
    | inr (other', there) ↦ ap view there ∙ e
  ]

  pub update-own : (f : ℕ → Thread A) (i : ℕ) (t : Thread A) → view (update f i t i) ≡ view t
  update-own f i t = elim (update-cases f i t i) [
    | inl (same, there) ↦ ap view there
    | inr (other, there) ↦ absurd (other refl)
  ]

  pub update-same :
      (f : ℕ → Thread A) (i : ℕ) (t : Thread A) (j : ℕ) (v : V)
      → view t ≡ view (f i)
      → view (f j) ≡ some v
      → view (update f i t j) ≡ some v
  update-same f i t j v same e = elim (update-cases f i t j) [
    | inl (here, there) ↦ ap view there ∙ same ∙ sym (ap (λ l. view (f l)) here) ∙ e
    | inr (other, there) ↦ ap view there ∙ e
  ]
