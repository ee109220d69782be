-- ===== src/Processors/Realesrgan/Rows.antt =====
-- realesrgan-processor.cpp: the rows of pixels that `process_image` writes.
use limb_worker.Prelude.{
  ℕ, zero, suc, ◌+◌, ◌*◌, ◌<◌, ◌≡◌, refl, sym, ap, subst, subst₂, ◌∙◌, true, false, Bool-cases, inl,
  inr, ◌⊎◌, Outcome, List, [], ◌∷◌, ◌++◌, arith, min, append-nil,
}
use limb_worker.Status.{ReturnStatus}
use limb_worker.Processors.Realesrgan.{
  Gpu, Task, Command, tile_nopad, xtiles, ytiles, has_pixels, upload_row, download_row,
  process_tiles, process_rows, upscale, int_terms, all_fit, process_image,
}
use limb_worker.Processors.Realesrgan.Tiles.{next_start, tile_count_iff}
use limb_worker.Processors.Realesrgan.Log.{
  writes, allocations, collect, collect-append, collect-silent, process_tiles-none,
  process_tile_lem, Silent,
}

-- Ranges that follow on one another, from the first offset to the last.
abbrev pub Follow : List (ℕ × ℕ) → ℕ → ℕ → Type 0
Follow [] from to = from ≡ to
Follow ((offset, size) ∷ rs) from to = (offset ≡ from) × Follow rs (offset + size) to

writes-Silent : Silent writes
unfolding Silent
writes-Silent = (λ w h c e. refl, refl, λ ti. refl, λ f. refl, λ cs w h c. refl, λ cs w h c. refl)

module _ (gpu : Gpu) (t : Task) where
  upload_row-writes : (yi : ℕ) → collect writes (upload_row gpu t yi) ≡ []
  unfolding upload_row
  upload_row-writes yi = ground arith

  tiles-writes : (yi n xi : ℕ) → collect writes (process_tiles gpu t yi n xi) ≡ []
  tiles-writes yi =
      process_tiles-none writes gpu t yi (λ xi. process_tile_lem writes gpu t writes-Silent yi xi)

  -- The bytes of `rows` rows of the input, scaled.
  scaled : ℕ → ℕ
  scaled rows = rows * (t.scale * (t.w * t.scale * t.channels))

  row_start :
      (yi : ℕ) → yi * t.scale * t.tilesize * t.w * t.scale * t.channels ≡ scaled (yi * t.tilesize)
  unfolding scaled
  row_start yi = omega arith

  row_end :
      (yi : ℕ)
      → yi * t.tilesize < t.h
      → scaled (yi * t.tilesize)
          + tile_nopad t.h t.tilesize yi * t.scale * (t.w * t.scale * t.channels)
        ≡ scaled (min ((yi + 1) * t.tilesize) t.h)
  unfolding scaled
  row_end yi h =
      let e : min ((yi + 1) * t.tilesize) t.h ≡ yi * t.tilesize + tile_nopad t.h t.tilesize yi =
        omega (arith, next_start yi t.tilesize) in
      omega (arith, ap (λ k. k * (t.scale * (t.w * t.scale * t.channels))) e)

  image_end : scaled t.h ≡ t.w * t.scale * (t.h * t.scale) * t.channels
  unfolding scaled
  image_end = omega arith

  scaled_zero : scaled 0 ≡ 0
  unfolding scaled
  scaled_zero = omega arith

  download_row-writes :
      (yi : ℕ)
      → has_pixels gpu t ≡ true
      → collect writes (download_row gpu t yi)
        ≡ (
          yi * t.scale * t.tilesize * t.w * t.scale * t.channels,
          tile_nopad t.h t.tilesize yi * t.scale * (t.w * t.scale * t.channels),
        )
          ∷ []
  unfolding download_row
  download_row-writes yi h = rw (h) refl

  row-writes :
      (yi : ℕ)
      → has_pixels gpu t ≡ true
      → (rest : List Command)
      → collect writes (
          (upload_row gpu t yi
            ++ (process_tiles gpu t yi (xtiles gpu t) 0 ++ download_row gpu t yi))
          ++ rest)
        ≡ (
          yi * t.scale * t.tilesize * t.w * t.scale * t.channels,
          tile_nopad t.h t.tilesize yi * t.scale * (t.w * t.scale * t.channels),
        )
          ∷ collect writes rest
  row-writes yi h rest =
      let tiles = process_tiles gpu t yi (xtiles gpu t) 0 in
      collect-append writes (upload_row gpu t yi ++ (tiles ++ download_row gpu t yi)) rest
      ∙ ap (λ zs. zs ++ collect writes rest)
          (collect-silent writes (upload_row gpu t yi) (tiles ++ download_row gpu t yi)
              (upload_row-writes yi)
            ∙ collect-silent writes tiles (download_row gpu t yi) (tiles-writes yi (xtiles gpu t) 0)
            ∙ download_row-writes yi h)

  process_rows-writes :
      has_pixels gpu t ≡ true
      → 0 < t.tilesize
      → (n yi : ℕ) → yi + n ≡ ytiles gpu t
      → Follow
          (collect writes (process_rows gpu t n yi))
          (scaled (min (yi * t.tilesize) t.h))
          (scaled t.h)
  unfolding process_rows
  process_rows-writes pixels positive zero yi e =
      let (to_start, to_count) = tile_count_iff t.h t.tilesize yi positive in
      ap scaled (ground (arith, e, to_count))
  process_rows-writes pixels positive (suc n) yi e =
      let (to_start, to_count) = tile_count_iff t.h t.tilesize yi positive in
      let inside : yi * t.tilesize < t.h = to_start (omega (arith, e)) in
      let at_start : min (yi * t.tilesize) t.h ≡ yi * t.tilesize = omega (arith, inside) in
      subst (λ rs. Follow rs (scaled (min (yi * t.tilesize) t.h)) (scaled t.h))
        (sym (row-writes yi pixels (process_rows gpu t n (yi + 1))))
        (
          row_start yi ∙ ap scaled (sym at_start),
          subst (λ k. Follow (collect writes (process_rows gpu t n (yi + 1))) k (scaled t.h))
              (sym (
                ap (λ k. k + tile_nopad t.h t.tilesize yi * t.scale * (t.w * t.scale * t.channels))
                  (row_start yi)
                ∙ row_end yi inside))
              (process_rows-writes pixels positive n (yi + 1) (omega (arith, e))),
        )

  upscale-writes :
      has_pixels gpu t ≡ true
      → 0 < t.tilesize
      → Follow (collect writes (upscale gpu t).0) 0 (t.w * t.scale * (t.h * t.scale) * t.channels)
  unfolding upscale
  upscale-writes pixels positive =
      let rows = process_rows gpu t (ytiles gpu t) 0 in
      let from_zero : scaled (min (0 * t.tilesize) t.h) ≡ 0 =
        ap scaled (omega arith) ∙ scaled_zero in
      subst (λ rs. Follow rs 0 (t.w * t.scale * (t.h * t.scale) * t.channels))
        (sym (
          collect-append writes rows (Command.reclaims_allocators ∷ [])
          ∙ append-nil (collect writes rows)))
        (subst₂ (λ a b. Follow (collect writes rows) a b) from_zero image_end
          (process_rows-writes pixels positive (ytiles gpu t) 0 (omega arith)))

  allocations-Silent : Silent allocations
  unfolding Silent
  allocations-Silent =
      (λ w h c e. refl, refl, λ ti. refl, λ f. refl, λ cs w h c. refl, λ cs w h c. refl)

  process_rows-allocations : (n yi : ℕ) → collect allocations (process_rows gpu t n yi) ≡ []
  unfolding process_rows upload_row download_row
  process_rows-allocations zero yi = refl
  process_rows-allocations (suc n) yi =
      let tiles = process_tiles gpu t yi (xtiles gpu t) 0 in
      let none_tile = process_tile_lem allocations gpu t allocations-Silent yi in
      collect-silent allocations (upload_row gpu t yi ++ (tiles ++ download_row gpu t yi))
        (process_rows gpu t n (yi + 1))
        (collect-silent allocations (upload_row gpu t yi) (tiles ++ download_row gpu t yi)
            (ground arith)
          ∙ collect-silent allocations tiles (download_row gpu t yi)
              (process_tiles-none allocations gpu t yi none_tile (xtiles gpu t) 0)
          ∙ ground arith)
      ∙ process_rows-allocations n (yi + 1)

  upscale-allocations :
      collect allocations (upscale gpu t).0 ≡ t.w * 4 * (t.h * 4) * t.channels ∷ []
  unfolding upscale
  upscale-allocations =
      let rows = process_rows gpu t (ytiles gpu t) 0 in
      ap (λ ns. t.w * 4 * (t.h * 4) * t.channels ∷ ns)
        (collect-silent allocations rows (Command.reclaims_allocators ∷ [])
          (process_rows-allocations (ytiles gpu t) 0))

  -- For any device and image, and fields with a positive tile size, a scale of 4, and an image of three
  -- or four channels (or a network with int8 storage): the call is undefined if a size or an offset
  -- does not fit `int`, and otherwise returns kOk, and allocates one result, which its writes fill: they
  -- follow on one another without a gap from the first byte allocated to the last. The memory is given,
  -- and the progress callback and ncnn return.
  pub process_image-writes :
      has_pixels gpu t ≡ true
      → 0 < t.tilesize
      → t.scale ≡ 4
      → ((all_fit gpu t (int_terms gpu t) ≡ false) × (process_image gpu t ≡ Outcome.undefined))
        ⊎ ((all_fit gpu t (int_terms gpu t) ≡ true)
            × ((commands : List Command) × (size : ℕ) × (process_image gpu t
                  ≡ Outcome.done (commands, ReturnStatus.k_ok))
                × (collect allocations commands ≡ size ∷ [])
                × Follow (collect writes commands) 0 size))
  unfolding process_image upscale
  process_image-writes pixels positive four = elim (Bool-cases (all_fit gpu t (int_terms gpu t))) [
    | inr over ↦ inl (over, rw (over) refl)
    | inl fits ↦ inr (
      fits,
      (
        (upscale gpu t).0,
        t.w * 4 * (t.h * 4) * t.channels,
        rw (fits) refl,
        upscale-allocations,
        subst (λ s. Follow (collect writes (upscale gpu t).0) 0 (t.w * s * (t.h * s) * t.channels))
            four (upscale-writes pixels positive),
      ),
    )
  ]
