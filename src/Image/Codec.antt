-- ===== src/Image/Codec.antt =====
-- image/png-codec.cpp and image/jpg-codec.cpp: which bytes each codec takes, and how `decode` and
-- `encode` go. The decoding itself is stb_image's and libturbojpeg's, which are parameters.
pub mod Signatures
use limb_worker.Prelude.{
  Bytes, ℕ, zero, suc, ◌+◌, ◌-◌, ◌*◌, Bool, true, false, Option, none, some, List, [], ◌∷◌, ltb,
  ◌==◌, if◌then◌else◌, length, get_elem?,
}
use limb_worker.Status.{ReturnStatus}

abbrev pub png_signature : Bytes
png_signature = 0x89 ∷ 0x50 ∷ 0x4e ∷ 0x47 ∷ 0x0d ∷ 0x0a ∷ 0x1a ∷ 0x0a ∷ []

abbrev pub jpeg_signature_start : Bytes
jpeg_signature_start = 0xff ∷ 0xd8 ∷ []

abbrev pub jpeg_signature_end : Bytes
jpeg_signature_end = 0xff ∷ 0xd9 ∷ []

-- `encoded[i] != b`, a read out of range counted as different (no caller makes one).
pub byte_is : Bytes → ℕ → ℕ → Bool
byte_is encoded i b = elim (get_elem? encoded i) [ none ↦ false | some x ↦ x == b ]

-- The loop that compares `encoded[offset + i]` with `signature[i]`.
pub matches_at : Bytes → ℕ → Bytes → Bool
unfolding byte_is
matches_at encoded offset [] = true
matches_at encoded offset (b ∷ signature) =
    let rest = matches_at encoded (suc offset) signature in
    if byte_is encoded offset b then rest else false

pub png_can_decode : Bytes → Bool
unfolding matches_at
png_can_decode encoded =
    if ltb (length encoded) (length png_signature)
    then false
    else matches_at encoded 0 png_signature

pub jpg_can_decode : Bytes → Bool
unfolding matches_at
jpg_can_decode encoded =
    if ltb (length encoded) (length jpeg_signature_start + length jpeg_signature_end)
    then false
    else if matches_at encoded 0 jpeg_signature_start
    then matches_at encoded (length encoded - length jpeg_signature_end) jpeg_signature_end
    else false

-- `Container`; `pixels` is `none` for a null `data`. The sizes are the `int`s as numbers, for images
-- whose `w * h * c` an `int` holds.
pub record Container : Type 0 where
  pub pixels : Option Bytes
  pub size : ℕ
  pub w : ℕ
  pub h : ℕ
  pub c : ℕ

pub data CodecType : Type 0 where
  k_png k_jpg count : CodecType

-- What the external decoder returns: pixels and sizes.
pub record Decoded : Type 0 where
  pub pixels : Bytes
  pub w : ℕ
  pub h : ℕ
  pub c : ℕ

-- The libraries: `stbi_load_from_memory` and `stbi_write_png_to_mem` (with the pixels, w, h and c);
-- `tjDecompressHeader2` (w, h, and whether the subsampling is TJSAMP_GRAY), the allocation of the
-- given number of bytes, `tjDecompress2` and `tjCompress2`. `none` is a failure.
pub record Libraries : Type 0 where
  pub stb_load : Bytes → Option Decoded
  pub stb_write_png : Bytes → ℕ → ℕ → ℕ → Option Bytes
  pub tj_header : Bytes → Option (ℕ × ℕ × Bool)
  pub new_bytes : ℕ → Bool
  pub tj_decompress : Bytes → ℕ → ℕ → ℕ → Option Bytes
  pub tj_compress : Bytes → ℕ → ℕ → Bool → Option Bytes

module _ (lib : Libraries) where
  unfoldable pub png_decode : Bytes → Container → Container × ReturnStatus
  png_decode encoded container =
      if png_can_decode encoded
      then elim (lib.stb_load encoded) [
        | none ↦ (record container { pixels = none }, ReturnStatus.k_aborted)
        | some d ↦ (
          record { pixels = some d.pixels; size = d.w * d.h * d.c; w = d.w; h = d.h; c = d.c },
          ReturnStatus.k_ok,
        )
      ]
      else (container, ReturnStatus.k_invalid_input)

  -- The callback takes the encoded bytes; `none` is a null buffer.
  unfoldable pub png_encode {ℓ} :
      {R : Type ℓ} → Container → (ReturnStatus → R) → (Option Bytes → R) → R
  png_encode container return cb = elim container.pixels [
    | none ↦ return ReturnStatus.k_invalid_input
    | some pixels ↦ cb (lib.stb_write_png pixels container.w container.h container.c)
  ]

  -- The pixels that `new` gives hold no image yet; the model keeps them as none written.
  pub jpg_fill : Bytes → Container → ℕ → ℕ → ℕ → Container × ReturnStatus
  jpg_fill encoded container w h c =
      if lib.new_bytes (w * h * c)
      then elim (lib.tj_decompress encoded w h c) [
        | none ↦ (record container { pixels = some [] }, ReturnStatus.k_invalid_input)
        | some pixels ↦ (
          record { pixels = some pixels; size = w * h * c; w = w; h = h; c = c },
          ReturnStatus.k_ok,
        )
      ]
      else (record container { pixels = none }, ReturnStatus.k_out_of_memory)

  unfoldable pub jpg_decode : Bytes → Container → Container × ReturnStatus
  unfolding jpg_fill
  jpg_decode encoded container =
      if jpg_can_decode encoded
      then elim (lib.tj_header encoded) [
        | none ↦ (container, ReturnStatus.k_invalid_input)
        | some (w, h, gray) ↦ jpg_fill encoded container w h (if gray then 1 else 3)
      ]
      else (container, ReturnStatus.k_invalid_input)

  -- The last argument of `tj_compress` is whether the format is TJPF_RGB.
  unfoldable pub jpg_encode {ℓ} :
      {R : Type ℓ} → Container → (ReturnStatus → R) → (Option Bytes → R) → R
  jpg_encode container return cb = elim container.pixels [
    | none ↦ return ReturnStatus.k_invalid_input
    | some pixels ↦ elim (lib.tj_compress pixels container.w container.h (container.c == 3)) [
      | none ↦ return ReturnStatus.k_aborted
      | some out ↦ cb (some out)
    ]
  ]
