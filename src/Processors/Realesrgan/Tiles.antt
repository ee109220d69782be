-- ===== src/Processors/Realesrgan/Tiles.antt =====
-- realesrgan-processor.cpp: the tiles cover the image, each pixel once.
use limb_worker.Prelude.{ℕ, ◌+◌, ◌-◌, ◌*◌, ◌/◌, ◌≤◌, ◌<◌, ◌≡◌, ◌↔◌, arith, subst}
use limb_worker.Processors.Realesrgan.{tile_count, tile_end}
use native.Mathlib.Nat.{
  le-div_iff_mul-le, div-mul-le_self, lt-div-mul-add, div-eq_of_lt-le, add-mul, one-mul,
}

-- The step of the loop's bound, for any positive tile size.
pub next_start : (i tile : ℕ) → (i + 1) * tile ≡ i * tile + tile
next_start i tile = rw (add-mul i 1 tile, one-mul tile)

-- There are as many tiles as start inside the image.
pub tile_count_iff : (size tile i : ℕ) → 0 < tile → (i < tile_count size tile) ↔ (i * tile < size)
tile_count_iff size tile i h =
    let (to_product, to_quotient) =
      le-div_iff_mul-le {k = tile} {x = i + 1} {y = size + tile - 1} h in
    (
      λ below. omega (arith, next_start i tile, to_product (omega (arith, below))),
      λ below. omega (arith, to_quotient (omega (arith, below, next_start i tile))),
    )

-- For any size of an image, positive tile size, tile and position along the image: the position lies
-- in the tile, and the tile is one that the loop reaches, exactly if the position lies in the image
-- and the tile is its quotient by the tile size; so each position lies in exactly one tile.
pub tile_end_lem :
    (size tile i x : ℕ)
    → 0 < tile
    → ((i < tile_count size tile) × (i * tile ≤ x) × (x < tile_end size tile i))
      ↔ ((x < size) × (x / tile ≡ i))
tile_end_lem size tile i x h =
    let (to_start, to_count) = tile_count_iff size tile i h in
    let step = next_start i tile in
    (
      λ (counted, above, below).
          (omega arith, div-eq_of_lt-le {k = i} tile {m = x} above (omega arith)),
      λ (inside, quotient).
          let above : i * tile ≤ x = subst (λ j. j * tile ≤ x) quotient (div-mul-le_self x tile) in
          let below : x < i * tile + tile =
            subst (λ j. x < j * tile + tile) quotient (lt-div-mul-add {a = x} {b = tile} h) in
          (to_count (omega arith), above, omega arith),
    )
