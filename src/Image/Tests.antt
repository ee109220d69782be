-- ===== src/Image/Tests.antt =====
-- The codecs and their pools at concrete inputs.

use limb_worker.Prelude.{Bytes, ◌≡◌, refl, some, [], ◌∷◌, arith}
use limb_worker.Image.Codec.{CodecType}
use limb_worker.Image.Factory.{Codec, Factory, fresh, acquire_from_type, reclaim_codec}
use limb_worker.Image.Factory.Pools.{IsValid, Lent, reclaim_codec-acquire_from_type}

-- One JPEG codec waits; another codec, at address 1, is out.
abbrev one_waiting : Factory
one_waiting = record {
  png_pool = [];
  jpg_pool = record { address = 0; kind = CodecType.k_jpg } ∷ [];
  next = 2;
}

abbrev out_codec : Codec
out_codec = record { address = 1; kind = CodecType.k_jpg }

one_waiting-IsValid : IsValid one_waiting
one_waiting-IsValid = record { pngs = tt; jpgs = (refl, omega arith, tt, tt) }

out_codec-Lent : Lent one_waiting out_codec
out_codec-Lent = record {
  known = omega arith;
  not_png = λ e. tt;
  not_jpg = λ e. (λ z. omega (arith, z), tt);
}

reclaim_codec_example :
    (g : Factory) × (reclaim_codec one_waiting out_codec ≡ some g)
    × IsValid g
    × (acquire_from_type g out_codec.kind ≡ some (one_waiting, out_codec))
reclaim_codec_example =
    reclaim_codec-acquire_from_type one_waiting out_codec one_waiting-IsValid out_codec-Lent
      (λ e. absurd (cc e))

abbrev marked : Bytes
marked = 255 ∷ 216 ∷ 255 ∷ 217 ∷ []

-- A codec taken from the fresh factory and given back is the one that waits.
fresh_round :
    reclaim_codec (record fresh { next = 1 }) (record { address = 0; kind = CodecType.k_png })
    ≡ some (record {
      png_pool = record { address = 0; kind = CodecType.k_png } ∷ [];
      jpg_pool = [];
      next = 1;
    })
unfolding fresh reclaim_codec
fresh_round = refl
