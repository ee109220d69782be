-- ===== src/Image/Factory.antt =====
-- image/image-codec.cpp: `CodecFactory`, which keeps returned codecs for reuse. Each method holds
-- `m_pool_mtx`, so a call is one step.
pub mod Pools
use limb_worker.Prelude.{Bytes, ℕ, suc, ◌+◌, Option, none, some, List, [], ◌∷◌, if◌then◌else◌}
use limb_worker.Image.Codec.{CodecType, png_can_decode, jpg_can_decode}

-- A codec object, by its address, with its dynamic type.
pub record Codec : Type 0 where
  pub address : ℕ
  pub kind : CodecType

-- `m_pool`: one list for each of the two types, its head the vector's back. `next` is the address
-- that `new` gives.
pub record Factory : Type 0 where
  pub png_pool : List Codec
  pub jpg_pool : List Codec
  pub next : ℕ

unfoldable pub fresh : Factory
fresh = record { png_pool = []; jpg_pool = []; next = 0 }

-- `none` is an index behind the end of `m_pool`, which has `CodecType::Count` entries.
unfoldable pub acquire_from_type : Factory → CodecType → Option (Factory × Codec)
acquire_from_type f CodecType.k_png = elim f.png_pool [
  | codec ∷ rest ↦ some (record f { png_pool = rest }, codec)
  | [] ↦ some (record f { next = suc f.next }, record { address = f.next; kind = CodecType.k_png })
]
acquire_from_type f CodecType.k_jpg = elim f.jpg_pool [
  | codec ∷ rest ↦ some (record f { jpg_pool = rest }, codec)
  | [] ↦ some (record f { next = suc f.next }, record { address = f.next; kind = CodecType.k_jpg })
]
acquire_from_type f CodecType.count = none

-- The codec is `none` for the null pointer, which both signatures refused.
unfoldable pub acquire_from_data : Factory → Bytes → Option (Factory × Option Codec)
unfolding acquire_from_type
acquire_from_data f encoded =
    if png_can_decode encoded
    then lift (acquire_from_type f CodecType.k_png)
    else if jpg_can_decode encoded
    then lift (acquire_from_type f CodecType.k_jpg)
    else some (f, none)
  where
    lift : Option (Factory × Codec) → Option (Factory × Option Codec)
    lift none = none
    lift (some (g, codec)) = some (g, some codec)

-- `_reclaimCodec` of a codec that is not null: `unique_ptr` calls its deleter on no other.
unfoldable pub reclaim_codec : Factory → Codec → Option Factory
reclaim_codec f codec = elim codec.kind [
  | CodecType.k_png ↦ some (record f { png_pool = codec ∷ f.png_pool })
  | CodecType.k_jpg ↦ some (record f { jpg_pool = codec ∷ f.jpg_pool })
  | CodecType.count ↦ none
]
