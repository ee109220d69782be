-- ===== src/Processors/Realesrgan/Reads.antt =====
-- realesrgan-processor.cpp: the rows of pixels that `process_image` reads.
use limb_worker.Prelude.{
  ℕ, zero, suc, ◌+◌, ◌-◌, ◌*◌, ◌≤◌, ◌<◌, ◌≡◌, refl, sym, ap, subst, ◌∙◌, Bool-cases, inl, inr, List,
  [], ◌∷◌, ◌++◌, arith, if◌then◌else◌, append-nil,
}
use limb_worker.Processors.Realesrgan.{
  Gpu, Task, Command, xtiles, ytiles, has_pixels, in_tile_y0, in_tile_y1, upload_row, download_row,
  process_tiles, process_rows, upscale,
}
use limb_worker.Processors.Realesrgan.Tiles.{next_start, tile_count_iff}
use limb_worker.Processors.Realesrgan.Log.{
  reads, collect, collect-append, collect-silent, process_tiles-none, process_tile_lem, Silent,
}
use native.Mathlib.Nat.{mul-le-mul_right}

-- Ranges that end by an offset.
abbrev pub Within : ℕ → List (ℕ × ℕ) → Type 0
Within size [] = Unit {0}
Within size ((offset, bytes) ∷ rs) = (offset + bytes ≤ size) × Within size rs

reads-Silent : Silent reads
unfolding Silent
reads-Silent = (λ w h c e. refl, refl, λ ti. refl, λ f. refl, λ cs w h c. refl, λ cs w h c. refl)

module _ (gpu : Gpu) (t : Task) where
  download_row-reads : (yi : ℕ) → collect reads (download_row gpu t yi) ≡ []
  unfolding download_row
  download_row-reads yi = ground arith

  tiles-reads : (yi n xi : ℕ) → collect reads (process_tiles gpu t yi n xi) ≡ []
  tiles-reads yi =
      process_tiles-none reads gpu t yi (λ xi. process_tile_lem reads gpu t reads-Silent yi xi)

  upload_row-reads :
      (yi : ℕ)
      → collect reads (upload_row gpu t yi) ≡ (
          if has_pixels gpu t
          then (
            in_tile_y0 gpu t yi * t.w * t.channels,
            (in_tile_y1 gpu t yi - in_tile_y0 gpu t yi) * (t.w * t.channels),
          )
            ∷ []
          else [])
  unfolding upload_row
  upload_row-reads yi = ground arith

  row-reads :
      (yi : ℕ) (rest : List Command)
      → collect reads (
          (upload_row gpu t yi
            ++ (process_tiles gpu t yi (xtiles gpu t) 0 ++ download_row gpu t yi))
          ++ rest)
        ≡ (if has_pixels gpu t
            then (
              in_tile_y0 gpu t yi * t.w * t.channels,
              (in_tile_y1 gpu t yi - in_tile_y0 gpu t yi) * (t.w * t.channels),
            )
              ∷ []
            else [])
          ++ collect reads rest
  row-reads yi rest =
      let tiles = process_tiles gpu t yi (xtiles gpu t) 0 in
      collect-append reads (upload_row gpu t yi ++ (tiles ++ download_row gpu t yi)) rest
      ∙ ap (λ zs. zs ++ collect reads rest)
          (collect-append reads (upload_row gpu t yi) (tiles ++ download_row gpu t yi)
            ∙ ap (λ zs. collect reads (upload_row gpu t yi) ++ zs)
                (collect-silent reads tiles (download_row gpu t yi)
                    (tiles-reads yi (xtiles gpu t) 0)
                  ∙ download_row-reads yi)
            ∙ append-nil (collect reads (upload_row gpu t yi))
            ∙ upload_row-reads yi)

  -- A row's read ends inside the input.
  read_bound :
      (yi : ℕ)
      → yi * t.tilesize < t.h
      → in_tile_y0 gpu t yi * t.w * t.channels
          + (in_tile_y1 gpu t yi - in_tile_y0 gpu t yi) * (t.w * t.channels)
        ≤ t.w * t.h * t.channels
  read_bound yi inside =
      let y0 = in_tile_y0 gpu t yi in
      let y1 = in_tile_y1 gpu t yi in
      let step = next_start yi t.tilesize in
      let ordered : y0 + (y1 - y0) ≤ t.h = omega (arith, inside, step) in
      omega (arith, mul-le-mul_right (t.w * t.channels) ordered)

  process_rows-reads :
      0 < t.tilesize
      → (n yi : ℕ) → yi + n ≡ ytiles gpu t
      → Within (t.w * t.h * t.channels) (collect reads (process_rows gpu t n yi))
  unfolding process_rows
  process_rows-reads positive zero yi e = tt
  process_rows-reads positive (suc n) yi e =
      let (to_start, to_count) = tile_count_iff t.h t.tilesize yi positive in
      let inside : yi * t.tilesize < t.h = to_start (omega (arith, e)) in
      let rest = process_rows-reads positive n (yi + 1) (omega (arith, e)) in
      subst (λ rs. Within (t.w * t.h * t.channels) rs)
        (sym (row-reads yi (process_rows gpu t n (yi + 1))))
        (elim (Bool-cases (has_pixels gpu t)) [
          | inl pixels ↦ rw (pixels) (read_bound yi inside, rest)
          | inr pixels ↦ rw (pixels) rest
        ])

  -- For any device, image and fields with a positive tile size: every read of `upscale` lies
  -- inside the input image.
  pub upscale-reads :
      0 < t.tilesize
      → let (commands, ret) = upscale gpu t in
        Within (t.w * t.h * t.channels) (collect reads commands)
  unfolding upscale
  upscale-reads positive =
      let rows = process_rows gpu t (ytiles gpu t) 0 in
      subst (λ rs. Within (t.w * t.h * t.channels) rs)
        (sym (
          collect-append reads rows (Command.reclaims_allocators ∷ [])
          ∙ append-nil (collect reads rows)))
        (process_rows-reads positive (ytiles gpu t) 0 (omega arith))
