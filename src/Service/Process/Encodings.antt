-- ===== src/Service/Process/Encodings.antt =====
-- image-service.hpp: the codecs in `processImage`, and what its end from the encoder on does.
use limb_worker.Prelude.{
  Bytes, Outcome, ◌≡◌, refl, sym, false, Option, none, some, List, [], ◌∷◌, ◌++◌, ◌&&◌, ◌==◌, ◌⊎◌,
  inl, inr, Bool-cases, Option-cases, List-cases, subst, ◌∙◌, append_assoc, append-nil,
}
use limb_worker.Status.{ReturnStatus}
use limb_worker.Image.Codec.{CodecType, png_encode, jpg_encode, png_can_decode, jpg_can_decode}
use limb_worker.Image.Factory.{Codec, Factory, acquire_from_type, acquire_from_data, reclaim_codec}
use limb_worker.Service.Process.{
  ImageTask, ImageInfo, World, Effect, Service, emit, give_back, encode_cb, encode_with,
  encode_result, is_ok, is_jpg, out_pixel,
}

-- What the encoder leaves: no effect, its run without an update, or its run and one update whose
-- status is the result.
pub data Encoding (world : World) (input : ImageTask) : ReturnStatus → List Effect → Type 0 where
  no_encoding : (ret : ReturnStatus) → is_ok ret ≡ false → Encoding world input ret []
  not_encoded :
      (kind : CodecType) (ret : ReturnStatus)
      → is_ok ret ≡ false
      → Encoding world input ret (Effect.encodes kind ∷ [])
  updated :
      (kind : CodecType) (bytes : Option Bytes)
      → Encoding world input
          (world.update_image input.image_id bytes)
          (Effect.encodes kind ∷ Effect.updates input.image_id bytes ∷ [])

pub recognised :
    (f : Factory) (encoded : Bytes)
    → ((png_can_decode encoded ≡ false)
        × (jpg_can_decode encoded ≡ false)
        × (acquire_from_data f encoded ≡ some (f, none)))
      ⊎ ((g : Factory) × (codec : Codec) × (acquire_from_data f encoded ≡ some (g, some codec)))
unfolding acquire_from_data acquire_from_type
recognised f encoded = elim (Bool-cases (png_can_decode encoded)) [
  | inl png ↦ elim (List-cases f.png_pool) [
    | inl e ↦ inr (rw (png, e) (_, _, refl))
    | inr (x, xs, e) ↦ inr (rw (png, e) (_, _, refl))
  ]
  | inr png ↦ elim (Bool-cases (jpg_can_decode encoded)) [
    | inr jpg ↦ inl (png, jpg, rw (png, jpg) refl)
    | inl jpg ↦ elim (List-cases f.jpg_pool) [
      | inl e ↦ inr (rw (png, jpg, e) (_, _, refl))
      | inr (x, xs, e) ↦ inr (rw (png, jpg, e) (_, _, refl))
    ]
  ]
]

pub give_back-Ended :
    (codec : Codec) (r : Service × ReturnStatus)
    → ((give_back codec r).0.effects ≡ r.0.effects) × ((give_back codec r).1 ≡ r.1)
unfolding give_back
give_back-Ended codec (s, ret) = elim (Option-cases (reclaim_codec s.codecs codec)) [
  | inl e ↦ rw (give_back, e) (refl, refl)
  | inr (f, e) ↦ rw (give_back, e) (refl, refl)
]

png-acquired :
    (f : Factory)
    → (g : Factory) × (png : Codec) × (acquire_from_type f CodecType.k_png ≡ some (g, png))
unfolding acquire_from_type
png-acquired f = elim (List-cases f.png_pool) [
  | inl e ↦ rw (e) (_, _, refl)
  | inr (x, xs, e) ↦ rw (e) (_, _, refl)
]

module _ (world : World) (input : ImageTask) where
  abbrev pub Encoded : Service → Service × ReturnStatus → Type 0
  Encoded s r =
      (middle : List Effect) × (r.0.effects ≡ s.effects ++ middle) × Encoding world input r.1 middle

  encode_with-Encoded :
      (kind : CodecType) (s : Service) (image : ImageInfo)
      → Encoded s (encode_with world kind input s (out_pixel image))
  unfolding encode_with png_encode jpg_encode encode_cb emit
  encode_with-Encoded CodecType.k_png s image =
      (_, append_assoc s.effects _ _, Encoding.updated CodecType.k_png _)
  encode_with-Encoded CodecType.k_jpg s image =
      elim (Option-cases
        (world.libraries.tj_compress image.pixels image.w image.h (image.c == 3))) [
          | inl e ↦ rw (e) (_, refl, Encoding.not_encoded CodecType.k_jpg _ refl)
          | inr (b, e) ↦ rw (e) (_, append_assoc s.effects _ _, Encoding.updated CodecType.k_jpg _)
        ]
  encode_with-Encoded CodecType.count s image =
      ([], sym (append-nil s.effects), Encoding.no_encoding _ refl)

  pub encode_result-Encoded :
      (kind : CodecType) (image : ImageInfo) (s : Service)
      → (r : Service × ReturnStatus) × (encode_result world input kind image s ≡ Outcome.done r)
        × Encoded s r
  unfolding encode_result
  encode_result-Encoded kind image s = elim (Bool-cases (image.c == 4 && is_jpg kind)) [
    | inl e ↦
        let (codecs, png, found) = png-acquired s.codecs in
        let s' = record s { codecs = codecs } in
        let (middle, grown, coded) = encode_with-Encoded png.kind s' image in
        let r = encode_with world png.kind input s' (out_pixel image) in
        (
          give_back png r,
          rw (e, found) refl,
          (
            middle,
            (give_back-Ended png r).0 ∙ grown,
            subst (λ ret. Encoding world input ret middle) (sym (give_back-Ended png r).1) coded,
          ),
        )
    | inr e ↦ (
      encode_with world kind input s (out_pixel image),
      rw (e) refl,
      encode_with-Encoded kind s image,
    )
  ]
