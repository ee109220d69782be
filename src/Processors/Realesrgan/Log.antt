-- ===== src/Processors/Realesrgan/Log.antt =====
-- realesrgan-processor.cpp: the commands of `process_image` by their kind, in their order.
use limb_worker.Prelude.{
  ℕ, zero, suc, ◌+◌, ◌*◌, ◌≡◌, refl, sym, ap, ◌∙◌, Bool-cases, inl, inr, ◌==◌, if◌then◌else◌, ltb,
  ◌&&◌, ◌||◌, List, [], ◌∷◌, ◌++◌, append_assoc,
}
use limb_worker.Processors.Realesrgan.{
  Gpu, Task, Command, process_tile, process_tiles, preproc, create_tiles, create_tile, infer,
  extract_tiles, scale_alpha, postproc, xtiles, ytiles,
}

-- The bytes read, by their offset and number.
abbrev pub reads : Command → List (ℕ × ℕ)
reads (Command.reads_pixels from rows bytes) = (from, rows * bytes) ∷ []
reads c = []

-- The bytes written, by their offset and number.
abbrev pub writes : Command → List (ℕ × ℕ)
writes (Command.writes_pixels from rows bytes) = (from, rows * bytes) ∷ []
writes c = []

-- The bytes of the results allocated.
abbrev pub allocations : Command → List ℕ
allocations (Command.allocates_image bytes) = bytes ∷ []
allocations c = []

-- The reported fractions.
abbrev pub progress : Command → List (ℕ × ℕ)
progress (Command.reports part total) = (part, total) ∷ []
progress c = []

module _ {A : Type 0} (kind : Command → List A) where
  abbrev pub collect : List Command → List A
  collect [] = []
  collect (c ∷ cs) = kind c ++ collect cs

  pub collect-append : (xs ys : List Command) → collect (xs ++ ys) ≡ collect xs ++ collect ys
  collect-append [] ys = refl
  collect-append (x ∷ xs) ys =
      ap (λ zs. kind x ++ zs) (collect-append xs ys)
      ∙ sym (append_assoc (kind x) (collect xs) (collect ys))

  pub collect-silent : (xs ys : List Command) → collect xs ≡ [] → collect (xs ++ ys) ≡ collect ys
  collect-silent xs ys none = collect-append xs ys ∙ ap (λ zs. zs ++ collect ys) none

module _ {A : Type 0} (kind : Command → List A) (gpu : Gpu) (t : Task) where
  -- A kind that no tile issues is not among the commands of a row of tiles.
  pub process_tiles-none :
      (yi : ℕ)
      → ((xi : ℕ) → collect kind (process_tile gpu t yi xi) ≡ [])
      → (n xi : ℕ) → collect kind (process_tiles gpu t yi n xi) ≡ []
  unfolding process_tiles
  process_tiles-none yi none_issued zero xi = refl
  process_tiles-none yi none_issued (suc n) xi =
      collect-append kind (process_tile gpu t yi xi) (process_tiles gpu t yi n (xi + 1))
      ∙ rw (none_issued xi, process_tiles-none yi none_issued n (xi + 1))

-- The kinds that list none of the commands a tile is computed with.
unfoldable pub Silent : {A : Type 0} → (Command → List A) → Type 0
Silent kind =
    ((w h c e : ℕ) → kind (Command.creates w h c e) ≡ [])
    × (kind Command.submits_and_waits ≡ [])
    × ((ti : ℕ) → kind (Command.extracts ti) ≡ [])
    × ((factor : ℕ) → kind (Command.interpolates factor) ≡ [])
    × ((cs : List ℕ) (w h c : ℕ) → kind (Command.preprocesses cs w h c) ≡ [])
    × ((cs : List ℕ) (w h c : ℕ) → kind (Command.postprocesses cs w h c) ≡ [])

module _ {A : Type 0} (kind : Command → List A) (gpu : Gpu) (t : Task) (silent : Silent kind) where
  preproc-silent : (yi xi : ℕ) → collect kind (preproc gpu t yi xi) ≡ []
  unfolding Silent preproc create_tiles create_tile
  preproc-silent yi xi =
      let (creates, submits, extracts, interpolates, preprocesses, postprocesses) = silent in
      elim (Bool-cases t.tta_mode) [
        | inl a ↦ elim (Bool-cases (t.channels == 4)) [
          | inl b ↦ rw (a, b) (simp (creates, preprocesses))
          | inr b ↦ rw (a, b) (simp (creates, preprocesses))
        ]
        | inr a ↦ elim (Bool-cases (t.channels == 4)) [
          | inl b ↦ rw (a, b) (simp (creates, preprocesses))
          | inr b ↦ rw (a, b) (simp (creates, preprocesses))
        ]
      ]

  infer-silent : collect kind (infer gpu t) ≡ []
  unfolding Silent infer extract_tiles
  infer-silent =
      let (creates, submits, extracts, interpolates, preprocesses, postprocesses) = silent in
      elim (Bool-cases t.tta_mode) [
        | inl a ↦ rw (a) (simp (extracts, submits))
        | inr a ↦ rw (a) (simp (extracts))
      ]

  scale_alpha-silent : collect kind (scale_alpha gpu t) ≡ []
  unfolding Silent scale_alpha
  scale_alpha-silent =
      let (creates, submits, extracts, interpolates, preprocesses, postprocesses) = silent in
      elim (Bool-cases (t.channels == 4 && (t.scale == 2 || (t.scale == 3 || t.scale == 4)))) [
        | inl a ↦ rw (a) (simp (interpolates))
        | inr a ↦ rw (a) refl
      ]

  waits-silent :
      collect kind (if ltb 1 (xtiles gpu t) then Command.submits_and_waits ∷ [] else []) ≡ []
  unfolding Silent
  waits-silent =
      let (creates, submits, extracts, interpolates, preprocesses, postprocesses) = silent in
      elim (Bool-cases (ltb 1 (xtiles gpu t))) [
        | inl a ↦ rw (a) (simp (submits))
        | inr a ↦ rw (a) refl
      ]

  -- A tile issues one command of such a kind at most: the report at its end.
  pub process_tile_lem :
      (yi xi : ℕ)
      → collect kind (process_tile gpu t yi xi)
        ≡ kind (Command.reports (yi * xtiles gpu t + (xi + 1)) (ytiles gpu t * xtiles gpu t)) ++ []
  unfolding Silent process_tile postproc
  process_tile_lem yi xi =
      let (creates, submits, extracts, interpolates, preprocesses, postprocesses) = silent in
      collect-silent kind (preproc gpu t yi xi) _ (preproc-silent yi xi)
      ∙ collect-silent kind (infer gpu t) _ infer-silent
      ∙ collect-silent kind (scale_alpha gpu t) _ scale_alpha-silent
      ∙ collect-silent kind (postproc gpu t yi xi) _ (simp (postprocesses))
      ∙ collect-silent kind (if ltb 1 (xtiles gpu t) then Command.submits_and_waits ∷ [] else []) _
          waits-silent
