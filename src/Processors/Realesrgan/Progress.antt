-- ===== src/Processors/Realesrgan/Progress.antt =====
-- realesrgan-processor.cpp: the calls of the progress callback.
use limb_worker.Prelude.{
  ℕ, zero, suc, ◌+◌, ◌*◌, ◌≡◌, refl, ap, ap₂, ◌∙◌, List, [], ◌∷◌, ◌++◌, arith, append-nil,
}
use limb_worker.Processors.Realesrgan.{
  Gpu, Task, Command, xtiles, ytiles, process_tile, upload_row, download_row, process_tiles,
  process_rows, upscale,
}
use limb_worker.Processors.Realesrgan.Log.{
  progress, collect, collect-append, collect-silent, process_tile_lem, Silent,
}

-- The fractions of a total from a part on, one after the other.
abbrev pub fractions : ℕ → ℕ → ℕ → List (ℕ × ℕ)
fractions total from zero = []
fractions total from (suc n) = (from, total) ∷ fractions total (from + 1) n

fractions-append :
    (total from n m : ℕ)
    → fractions total from n ++ fractions total (from + n) m ≡ fractions total from (n + m)
fractions-append total from zero m =
    let here : from + 0 ≡ from = omega arith in
    let same : m ≡ 0 + m = omega arith in ap₂ (λ k l. fractions total k l) here same
fractions-append total from (suc n) m =
    let next : from + suc n ≡ from + 1 + n = omega arith in
    let count : suc (n + m) ≡ suc n + m = omega arith in
    ap (λ k. fractions total from (suc n) ++ fractions total k m) next
    ∙ ap (λ fs. (from, total) ∷ fs) (fractions-append total (from + 1) n m)
    ∙ ap (λ k. fractions total from k) count

progress-Silent : Silent progress
unfolding Silent
progress-Silent = (λ w h c e. refl, refl, λ ti. refl, λ f. refl, λ cs w h c. refl, λ cs w h c. refl)

module _ (gpu : Gpu) (t : Task) where
  abbrev pub total : ℕ
  total = ytiles gpu t * xtiles gpu t

  upload_row-progress : (yi : ℕ) → collect progress (upload_row gpu t yi) ≡ []
  unfolding upload_row
  upload_row-progress yi = ground arith

  download_row-progress : (yi : ℕ) → collect progress (download_row gpu t yi) ≡ []
  unfolding download_row
  download_row-progress yi = ground arith

  process_tiles-progress :
      (yi n xi : ℕ)
      → collect progress (process_tiles gpu t yi n xi)
        ≡ fractions total (yi * xtiles gpu t + (xi + 1)) n
  unfolding process_tiles
  process_tiles-progress yi zero xi = refl
  process_tiles-progress yi (suc n) xi =
      let later : yi * xtiles gpu t + (xi + 1 + 1) ≡ yi * xtiles gpu t + (xi + 1) + 1 =
        omega arith in
      collect-append progress (process_tile gpu t yi xi) (process_tiles gpu t yi n (xi + 1))
      ∙ ap₂ (λ xs ys. xs ++ ys) (process_tile_lem progress gpu t progress-Silent yi xi)
          (process_tiles-progress yi n (xi + 1))
      ∙ ap (λ k. (yi * xtiles gpu t + (xi + 1), total) ∷ fractions total k n) later

  process_rows-progress :
      (n yi : ℕ)
      → collect progress (process_rows gpu t n yi)
        ≡ fractions total (yi * xtiles gpu t + 1) (n * xtiles gpu t)
  unfolding process_rows
  process_rows-progress zero yi =
      let empty : 0 ≡ 0 * xtiles gpu t = omega arith in
      ap (λ k. fractions total (yi * xtiles gpu t + 1) k) empty
  process_rows-progress (suc n) yi =
      let tiles = process_tiles gpu t yi (xtiles gpu t) 0 in
      let rest = process_rows gpu t n (yi + 1) in
      let next : (yi + 1) * xtiles gpu t + 1 ≡ yi * xtiles gpu t + 1 + xtiles gpu t = omega arith in
      let count : xtiles gpu t + n * xtiles gpu t ≡ suc n * xtiles gpu t = omega arith in
      collect-append progress (upload_row gpu t yi ++ (tiles ++ download_row gpu t yi)) rest
      ∙ ap₂ (λ xs ys. xs ++ ys)
          (collect-silent progress (upload_row gpu t yi) (tiles ++ download_row gpu t yi)
              (upload_row-progress yi)
            ∙ collect-append progress tiles (download_row gpu t yi)
            ∙ ap₂ (λ xs ys. xs ++ ys) (process_tiles-progress yi (xtiles gpu t) 0)
                (download_row-progress yi)
            ∙ append-nil (fractions total (yi * xtiles gpu t + 1) (xtiles gpu t)))
          (process_rows-progress n (yi + 1) ∙ ap (λ k. fractions total k (n * xtiles gpu t)) next)
      ∙ fractions-append total (yi * xtiles gpu t + 1) (xtiles gpu t) (n * xtiles gpu t)
      ∙ ap (λ k. fractions total (yi * xtiles gpu t + 1) k) count

  -- For any device, image and fields: the progress callback hears 0, and then every tile's number over
  -- the number of tiles, from 1 on, in order and each once; the last of them is the whole.
  pub upscale-progress :
      let (commands, ret) = upscale gpu t in
      collect progress commands ≡ (0, 1) ∷ fractions total 1 total
  unfolding upscale
  upscale-progress =
      let rows = process_rows gpu t (ytiles gpu t) 0 in
      let first : 0 * xtiles gpu t + 1 ≡ 1 = omega arith in
      ap (λ fs. (0, 1) ∷ fs)
        (collect-append progress rows (Command.reclaims_allocators ∷ [])
          ∙ append-nil (collect progress rows)
          ∙ process_rows-progress (ytiles gpu t) 0
          ∙ ap (λ k. fractions total k total) first)
