-- ===== src/Processors/Realesrgan.antt =====
-- processors/realesrgan/realesrgan-processor.cpp: `RealesrganProcessor::process_image`, which upscales
-- an image tile by tile. The calls of ncnn are the commands, in their order; `int` holds the sizes of
-- the image and of the result. The model is of a build for another system than Windows.
pub mod Log
pub mod Tiles
pub mod Rows
pub mod Reads
pub mod Progress
pub mod Container
use limb_worker.Prelude.{
  ℕ, zero, suc, ◌+◌, ◌-◌, ◌*◌, ◌/◌, ◌^◌, min, Bool, true, false, ◌&&◌, ◌||◌, List, [], ◌∷◌, ◌++◌,
  ◌==◌, ltb, if◌then◌else◌, Outcome,
}
use limb_worker.Status.{ReturnStatus}

-- A matrix of ncnn, by what the code reads of it.
pub record Mat : Type 0 where
  pub w : ℕ
  pub h : ℕ
  pub cstep : ℕ

abbrev pub no_mat : Mat
no_mat = record { w = 0; h = 0; cstep = 0 }

-- What ncnn gives: the step between channels of a new matrix, the network's output for a tile, and
-- the interpolation of the alpha channel by a factor.
pub record Gpu : Type 0 where
  pub cstep : ℕ → ℕ → ℕ
  pub extract : Mat → Mat
  pub interpolate : ℕ → Mat → Mat

-- The processor's fields, the options of the network, and the input image.
pub record Task : Type 0 where
  pub scale : ℕ
  pub tilesize : ℕ
  pub prepadding : ℕ
  pub tta_mode : Bool
  pub use_fp16_storage : Bool
  pub use_int8_storage : Bool
  pub w : ℕ
  pub h : ℕ
  pub channels : ℕ

-- `reports` is the progress, as a fraction. Pixels are read and written from an offset on, by rows of
-- a size in bytes. The constants and the dispatcher of a pipeline are written out.
pub data Command : Type 0 where
  acquires_allocators reclaims_allocators : Command
  allocates_image : ℕ → Command
  reports : ℕ → ℕ → Command
  reads_pixels writes_pixels : ℕ → ℕ → ℕ → Command
  clones_in clones_out submits_and_waits : Command
  creates : ℕ → ℕ → ℕ → ℕ → Command
  extracts interpolates : ℕ → Command
  preprocesses postprocesses : List ℕ → ℕ → ℕ → ℕ → Command

-- `(w + TILE_SIZE_X - 1) / TILE_SIZE_X`.
abbrev pub tile_count : ℕ → ℕ → ℕ
tile_count size tile = (size + tile - 1) / tile

-- The end of tile `i`, and its size.
abbrev pub tile_end : ℕ → ℕ → ℕ → ℕ
tile_end size tile i = min ((i + 1) * tile) size

abbrev pub tile_nopad : ℕ → ℕ → ℕ → ℕ
tile_nopad size tile i = tile_end size tile i - i * tile

-- `tile_x1 - tile_x0`: the start may be negative, so the padding before it is added at the end.
abbrev pub tile_padded : ℕ → ℕ → ℕ → ℕ → ℕ
tile_padded size tile pad i = tile_end size tile i + pad + pad - i * tile

module _ (gpu : Gpu) (t : Task) where
  abbrev pub int8s : Bool
  int8s = t.use_fp16_storage && t.use_int8_storage

  abbrev pub xtiles : ℕ
  xtiles = tile_count t.w t.tilesize

  abbrev pub ytiles : ℕ
  ytiles = tile_count t.h t.tilesize

  abbrev pub elemsize : ℕ
  elemsize = if t.use_fp16_storage then 2 else 4

  abbrev pub in_tile_y0 : ℕ → ℕ
  in_tile_y0 yi = yi * t.tilesize - t.prepadding

  abbrev pub in_tile_y1 : ℕ → ℕ
  in_tile_y1 yi = min ((yi + 1) * t.tilesize + t.prepadding) t.h

  abbrev pub new_mat : ℕ → ℕ → Mat
  new_mat w h = record { w = w; h = h; cstep = gpu.cstep w h }

  -- Other channel counts than 3 and 4 leave `in` empty where there is no int8 storage.
  abbrev pub has_pixels : Bool
  has_pixels = int8s || (t.channels == 3 || t.channels == 4)

  abbrev pub in_gpu : ℕ → Mat
  in_gpu yi = if has_pixels then new_mat t.w (in_tile_y1 yi - in_tile_y0 yi) else no_mat

  abbrev pub out_gpu : ℕ → Mat
  out_gpu yi = new_mat (t.w * t.scale) (tile_nopad t.h t.tilesize yi * t.scale)

  -- The rows with their padding go to the device, and the row of the result is created there.
  pub upload_row : ℕ → List Command
  upload_row yi =
      (if has_pixels
        then Command.reads_pixels (in_tile_y0 yi * t.w * t.channels) (in_tile_y1 yi - in_tile_y0 yi)
            (t.w * t.channels)
          ∷ []
        else [])
      ++ (Command.clones_in ∷ (if ltb 1 xtiles then Command.submits_and_waits ∷ [] else []))
      ++ ((if int8s
            then Command.creates (t.w * t.scale) (tile_nopad t.h t.tilesize yi * t.scale) 1
                t.channels
            else Command.creates (t.w * t.scale) (tile_nopad t.h t.tilesize yi * t.scale) t.channels
                4)
          ∷ [])

  abbrev pub in_tile : ℕ → ℕ → Mat
  in_tile yi xi =
      new_mat (tile_padded t.w t.tilesize t.prepadding xi)
        (tile_padded t.h t.tilesize t.prepadding yi)

  abbrev pub in_alpha_tile : ℕ → ℕ → Mat
  in_alpha_tile yi xi =
      if t.channels == 4
      then new_mat (tile_nopad t.w t.tilesize xi) (tile_nopad t.h t.tilesize yi)
      else no_mat

  pub create_tile : ℕ → ℕ → Command
  create_tile w h = Command.creates w h 3 elemsize

  -- Eight tiles for the test-time augmentation, four of them turned.
  pub create_tiles : ℕ → ℕ → List Command
  unfolding create_tile
  create_tiles yi xi =
      let w = (in_tile yi xi).w in
      let h = (in_tile yi xi).h in
      if t.tta_mode
      then create_tile w h
        ∷ create_tile w h
        ∷ create_tile w h
        ∷ create_tile w h
        ∷ create_tile h w
        ∷ create_tile h w
        ∷ create_tile h w
        ∷ create_tile h w
        ∷ []
      else create_tile w h ∷ []

  pub preproc : ℕ → ℕ → List Command
  unfolding create_tiles
  preproc yi xi =
      let source = in_gpu yi in
      let tile = in_tile yi xi in
      let alpha = in_alpha_tile yi xi in
      create_tiles yi xi
      ++ (if t.channels == 4 then Command.creates alpha.w alpha.h 1 elemsize ∷ [] else [])
      ++ (Command.preprocesses
            (source.w
              ∷ source.h
              ∷ source.cstep
              ∷ tile.w
              ∷ tile.h
              ∷ tile.cstep
              ∷ t.prepadding
              ∷ t.prepadding
              ∷ xi * t.tilesize
              ∷ min (yi * t.tilesize) t.prepadding
              ∷ t.channels
              ∷ alpha.w
              ∷ alpha.h
              ∷ [])
            tile.w tile.h t.channels
          ∷ [])

  -- The network on each of the eight tiles, or on the one.
  pub extract_tiles : ℕ → ℕ → List Command
  extract_tiles zero ti = []
  extract_tiles (suc n) ti =
      Command.extracts ti ∷ Command.submits_and_waits ∷ extract_tiles n (ti + 1)

  pub infer : List Command
  unfolding extract_tiles
  infer = if t.tta_mode then extract_tiles 8 0 else Command.extracts 0 ∷ []

  abbrev pub out_alpha_tile : ℕ → ℕ → Mat
  out_alpha_tile yi xi =
      if t.channels == 4
      then (if t.scale == 1
          then in_alpha_tile yi xi
          else if t.scale == 2 || (t.scale == 3 || t.scale == 4)
          then gpu.interpolate t.scale (in_alpha_tile yi xi)
          else no_mat)
      else no_mat

  pub scale_alpha : List Command
  scale_alpha =
      if t.channels == 4 && (t.scale == 2 || (t.scale == 3 || t.scale == 4))
      then Command.interpolates t.scale ∷ []
      else []

  pub postproc : ℕ → ℕ → List Command
  postproc yi xi =
      let tile = gpu.extract (in_tile yi xi) in
      let out = out_gpu yi in
      let alpha = out_alpha_tile yi xi in
      let width = min (t.tilesize * t.scale) (out.w - xi * t.tilesize * t.scale) in
      Command.postprocesses
        (tile.w
          ∷ tile.h
          ∷ tile.cstep
          ∷ out.w
          ∷ out.h
          ∷ out.cstep
          ∷ xi * t.tilesize * t.scale
          ∷ width
          ∷ t.prepadding * t.scale
          ∷ t.prepadding * t.scale
          ∷ t.channels
          ∷ alpha.w
          ∷ alpha.h
          ∷ [])
        width out.h t.channels
      ∷ []

  pub process_tile : ℕ → ℕ → List Command
  unfolding preproc infer scale_alpha postproc
  process_tile yi xi =
      preproc yi xi
      ++ (infer
          ++ (scale_alpha
              ++ (postproc yi xi
                  ++ ((if ltb 1 xtiles then Command.submits_and_waits ∷ [] else [])
                      ++ (Command.reports (yi * xtiles + (xi + 1)) (ytiles * xtiles) ∷ [])))))

  -- The loop over `xi`, with `n` tiles left.
  pub process_tiles : ℕ → ℕ → ℕ → List Command
  unfolding process_tile
  process_tiles yi zero xi = []
  process_tiles yi (suc n) xi = process_tile yi xi ++ process_tiles yi n (xi + 1)

  pub download_row : ℕ → List Command
  download_row yi =
      Command.clones_out
      ∷ Command.submits_and_waits
      ∷ (if has_pixels
          then Command.writes_pixels (yi * t.scale * t.tilesize * t.w * t.scale * t.channels)
              (out_gpu yi).h ((out_gpu yi).w * t.channels)
            ∷ []
          else [])

  -- The loop over `yi`, with `n` rows left.
  pub process_rows : ℕ → ℕ → List Command
  unfolding upload_row process_tiles download_row
  process_rows zero yi = []
  process_rows (suc n) yi =
      (upload_row yi ++ (process_tiles yi xtiles 0 ++ download_row yi)) ++ process_rows n (yi + 1)

  -- Where the sizes are in range. The result's size in bytes is 16 times the input's: its factor of 4
  -- is not `scale`.
  pub upscale : List Command × ReturnStatus
  unfolding process_rows
  upscale = (
    Command.allocates_image (t.w * 4 * (t.h * 4) * t.channels)
        ∷ Command.acquires_allocators
        ∷ Command.reports 0 1
        ∷ (process_rows ytiles 0 ++ (Command.reclaims_allocators ∷ [])),
    ReturnStatus.k_ok,
  )

  abbrev last_row : ℕ
  last_row = ytiles - 1

  -- The largest values of the expressions in `int`: the result's size, the tiles, and the offsets into
  -- the pixels, for the last row and column.
  unfoldable pub int_terms : List ℕ
  int_terms =
      (t.w * 4)
      ∷ (t.h * 4)
      ∷ (t.w * 4 * (t.h * 4))
      ∷ (t.w * 4 * (t.h * 4) * t.channels)
      ∷ (t.w + t.tilesize)
      ∷ (t.h + t.tilesize)
      ∷ (xtiles * t.tilesize + t.prepadding)
      ∷ (ytiles * t.tilesize + t.prepadding)
      ∷ (ytiles * xtiles)
      ∷ (t.w * t.scale)
      ∷ (t.tilesize * t.scale)
      ∷ (t.prepadding * t.scale)
      ∷ ((xtiles - 1) * t.tilesize * t.scale)
      ∷ (in_tile_y0 last_row * t.w)
      ∷ (in_tile_y0 last_row * t.w * t.channels)
      ∷ (last_row * t.scale)
      ∷ (last_row * t.scale * t.tilesize)
      ∷ (last_row * t.scale * t.tilesize * t.w)
      ∷ (last_row * t.scale * t.tilesize * t.w * t.scale)
      ∷ (last_row * t.scale * t.tilesize * t.w * t.scale * t.channels)
      ∷ []

  abbrev pub all_fit : List ℕ → Bool
  all_fit [] = true
  all_fit (n ∷ ns) = ltb n (2 ^ 31) && all_fit ns

  -- An overflow of `int` is undefined. The memory of the result is given, and the progress callback and
  -- ncnn return.
  unfoldable pub process_image : Outcome (List Command × ReturnStatus)
  unfolding upscale int_terms
  process_image = if all_fit int_terms then Outcome.done upscale else Outcome.undefined
