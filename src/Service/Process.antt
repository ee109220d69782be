-- ===== src/Service/Process.antt =====
-- include/image-service/image-service.hpp: `ImageService::processImage`.
pub mod Encodings
pub mod Sessions
use Prim.Native.String.{String}
use limb_worker.Prelude.{
  Bytes, Outcome, ◌>>=◌, ℕ, ◌&&◌, Bool, true, false, Option, none, some, List, [], ◌∷◌, ◌++◌, ◌==◌,
  if◌then◌else◌, length,
}
use limb_worker.Status.{ReturnStatus, status_code}
use limb_worker.Image.Codec.{
  Container, CodecType, Libraries, png_decode, png_encode, jpg_decode, jpg_encode,
}
use limb_worker.Image.Factory.{Codec, Factory, acquire_from_type, acquire_from_data, reclaim_codec}
use limb_worker.Service.Initializer
use limb_worker.Service.Initializer.{Initializer}

-- `ImageTask`.
pub record ImageTask : Type 0 where
  pub model_id : ℕ
  pub image_id : String

-- `ImageInfo` as a processor leaves it.
pub record ImageInfo : Type 0 where
  pub pixels : Bytes
  pub size : ℕ
  pub w : ℕ
  pub h : ℕ
  pub c : ℕ

-- What `processImage` calls: the repository's two methods (`none` for a null buffer), and the container
-- at an address: whether its `init` returns or throws, whether `tryAcquireProcessor` returns a processor
-- or null, and the status that `process_image` returns, with the image where it is kOk. The last two may
-- throw or be undefined.
pub record World : Type 0 where
  pub get_image : String → ReturnStatus × Bytes
  pub update_image : String → Option Bytes → ReturnStatus
  pub inits : ℕ → Bool
  pub acquires : ℕ → Outcome Bool
  pub process : ℕ → Container → Outcome (ReturnStatus × ImageInfo)
  pub libraries : Libraries

-- What the call did to the outside, in order. `encodes` says which codec's `encode` ran.
pub data Effect : Type 0 where
  acquires_processor reclaims_processor : ℕ → Effect
  encodes : CodecType → Effect
  updates : String → Option Bytes → Effect

pub record Service : Type 0 where
  pub provider : Initializer
  pub codecs : Factory
  pub effects : List Effect

abbrev pub Result : Type 0
Result = Outcome (Service × ReturnStatus)

-- `image::Container inPixel;`.
abbrev pub in_pixel : Container
in_pixel = record { pixels = none; size = 0; w = 0; h = 0; c = 0 }

-- `codec->decode` through a pointer. `Count` is no codec's type.
pub decode : Libraries → CodecType → Bytes → Container × ReturnStatus
decode lib CodecType.k_png encoded = png_decode lib encoded in_pixel
decode lib CodecType.k_jpg encoded = jpg_decode lib encoded in_pixel
decode lib CodecType.count encoded = (in_pixel, ReturnStatus.k_invalid_input)

abbrev pub is_jpg : CodecType → Bool
is_jpg CodecType.k_png = false
is_jpg CodecType.k_jpg = true
is_jpg CodecType.count = false

abbrev pub is_ok : ReturnStatus → Bool
is_ok ret = status_code ret == 0

pub emit : Service → Effect → Service
emit s e = record s { effects = s.effects ++ e ∷ [] }

-- The deleters: `reclaimCodec`, and `reclaimProcessor` of the container.
pub give_back : Codec → Service × ReturnStatus → Service × ReturnStatus
give_back codec (s, ret) = elim (reclaim_codec s.codecs codec) [
  | none ↦ (s, ret)
  | some codecs ↦ (record s { codecs = codecs }, ret)
]

pub reclaim_processor : ℕ → Service × ReturnStatus → Service × ReturnStatus
unfolding emit
reclaim_processor p (s, ret) = (emit s (Effect.reclaims_processor p), ret)

-- `outPixel`, which takes the processor's pixels over.
abbrev pub out_pixel : ImageInfo → Container
out_pixel image = record {
  pixels = some image.pixels;
  size = image.size;
  w = image.w;
  h = image.h;
  c = image.c;
}

module _ (world : World) where
  -- `encodeCb`.
  pub encode_cb : ImageTask → Service → Option Bytes → Service × ReturnStatus
  unfolding emit
  encode_cb input s bytes =
      (emit s (Effect.updates input.image_id bytes), world.update_image input.image_id bytes)

  pub encode_with : CodecType → ImageTask → Service → Container → Service × ReturnStatus
  unfolding emit encode_cb
  encode_with CodecType.k_png input s out =
      let s' = emit s (Effect.encodes CodecType.k_png) in
      png_encode world.libraries out (λ ret. (s', ret)) (encode_cb input s')
  encode_with CodecType.k_jpg input s out =
      let s' = emit s (Effect.encodes CodecType.k_jpg) in
      jpg_encode world.libraries out (λ ret. (s', ret)) (encode_cb input s')
  encode_with CodecType.count input s out = (s, ReturnStatus.k_invalid_input)

  -- From the processor's result on: four channels do not fit a JPEG, so a PNG codec takes over.
  pub encode_result : ImageTask → CodecType → ImageInfo → Service → Result
  unfolding encode_with give_back
  encode_result input kind image s =
      if image.c == 4 && is_jpg kind
      then (elim (acquire_from_type s.codecs CodecType.k_png) [
        | none ↦ Outcome.undefined
        | some (codecs, png) ↦ Outcome.done (
            give_back png
              (encode_with png.kind input (record s { codecs = codecs }) (out_pixel image)))
      ])
      else Outcome.done (encode_with kind input s (out_pixel image))

  -- With a container's address: the processor is acquired, runs, and goes back on every way out.
  pub run_processor : ImageTask → CodecType → Container → ℕ → Service → Result
  unfolding emit encode_result reclaim_processor
  run_processor input kind pixel p s =
      let s' = emit s (Effect.acquires_processor p) in
      world.acquires p >>= λ acquired.
      if acquired
      then (world.process p pixel >>= λ (ret, image).
          if is_ok ret
          then (encode_result input kind image s' >>= λ r. Outcome.done (reclaim_processor p r))
          else Outcome.done (reclaim_processor p (s', ret)))
      else Outcome.done (s, ReturnStatus.k_aborted)

  -- With a codec: the image is decoded, and the container looked up.
  pub with_codec : ImageTask → CodecType → Bytes → Service → Result
  unfolding run_processor decode
  with_codec input kind encoded s =
      let (pixel, ret) = decode world.libraries kind encoded in
      if is_ok ret
      then (elim (Initializer.acquire_container world.inits s.provider input.model_id) [
        | Outcome.throws ↦ Outcome.throws
        | Outcome.undefined ↦ Outcome.undefined
        | Outcome.done (provider, none) ↦
            Outcome.done (record s { provider = provider }, ReturnStatus.k_aborted)
        | Outcome.done (provider, some p) ↦
            run_processor input kind pixel p (record s { provider = provider })
      ])
      else Outcome.done (s, ret)

  -- The codec goes back on every way out; an exception leaves no service to look at.
  pub process_image : Service → ImageTask → Result
  unfolding with_codec give_back
  process_image s input =
      let (ret, encoded) = world.get_image input.image_id in
      if is_ok ret
      then (elim (acquire_from_data s.codecs encoded) [
        | none ↦ Outcome.undefined
        | some (codecs, none) ↦ Outcome.undefined
        | some (codecs, some codec) ↦
            (with_codec input codec.kind encoded (record s { codecs = codecs }) >>= λ r.
            Outcome.done (give_back codec r))
      ])
      else Outcome.done (s, ret)
