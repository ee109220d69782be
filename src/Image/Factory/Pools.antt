-- ===== src/Image/Factory/Pools.antt =====
-- image-codec.cpp: codecs stand in the pool of their type, and none is handed out twice.
use mathlib.Core.Option
use limb_worker.Prelude.{
  Bytes, ℕ, suc, ◌<◌, ◌≡◌, ◌≢◌, inl, inr, refl, ap, Option, none, some, List, [], ◌∷◌, arith,
  if◌then◌else◌, Bool-cases,
}
use limb_worker.Image.Codec.{CodecType, png_can_decode, jpg_can_decode}
use limb_worker.Image.Factory.{Codec, Factory, acquire_from_type, acquire_from_data, reclaim_codec}

-- Codecs of one kind, at addresses below the bound, none of them twice.
abbrev pub Apart : ℕ → List Codec → Type 0
Apart a [] = Unit {0}
Apart a (x ∷ xs) = (x.address ≢ a) × Apart a xs

abbrev pub Bucket : CodecType → ℕ → List Codec → Type 0
Bucket t n [] = Unit {0}
Bucket t n (x ∷ xs) = (x.kind ≡ t) × (x.address < n) × Apart x.address xs × Bucket t n xs

pub record IsValid (f : Factory) : Type 0 where
  pub pngs : Bucket CodecType.k_png f.next f.png_pool
  pub jpgs : Bucket CodecType.k_jpg f.next f.jpg_pool

-- The codec is in no pool, and its address has been given out.
pub record Lent (f : Factory) (codec : Codec) : Type 0 where
  pub known : codec.address < f.next
  pub not_png : codec.kind ≡ CodecType.k_png → Apart codec.address f.png_pool
  pub not_jpg : codec.kind ≡ CodecType.k_jpg → Apart codec.address f.jpg_pool

Bucket-mono : (t : CodecType) (n : ℕ) (xs : List Codec) → Bucket t n xs → Bucket t (suc n) xs
Bucket-mono t n [] b = tt
Bucket-mono t n (x ∷ xs) b = (b.0, omega arith, b.2, Bucket-mono t n xs b.3)

Apart-above : (t : CodecType) (n : ℕ) (xs : List Codec) → Bucket t n xs → Apart n xs
Apart-above t n [] b = tt
Apart-above t n (x ∷ xs) b = (omega arith, Apart-above t n xs b.3)

abbrev Acquires : Factory → CodecType → Type 0
Acquires f t =
    (g : Factory) × (codec : Codec) × (acquire_from_type f t ≡ some (g, codec))
    × (codec.kind ≡ t)
    × IsValid g
    × Lent g codec

png-Acquires :
    (f : Factory) (xs : List Codec)
    → f.png_pool ≡ xs
    → IsValid f
    → Bucket CodecType.k_png f.next xs
    → Acquires f CodecType.k_png
unfolding acquire_from_type
png-Acquires f [] e v b = (
  record f { next = suc f.next },
  record { address = f.next; kind = CodecType.k_png },
  ground arith,
  refl,
  record { pngs = Bucket-mono _ _ _ v.pngs; jpgs = Bucket-mono _ _ _ v.jpgs },
  record {
    known = omega arith;
    not_png = λ _. Apart-above _ _ _ v.pngs;
    not_jpg = λ h. absurd (cc);
  },
)
png-Acquires f (x ∷ xs) e v b = (
  record f { png_pool = xs },
  x,
  ground arith,
  b.0,
  record { pngs = b.3; jpgs = v.jpgs },
  record { known = b.1; not_png = λ _. b.2; not_jpg = λ h. absurd (cc (b.0)) },
)

jpg-Acquires :
    (f : Factory) (xs : List Codec)
    → f.jpg_pool ≡ xs
    → IsValid f
    → Bucket CodecType.k_jpg f.next xs
    → Acquires f CodecType.k_jpg
unfolding acquire_from_type
jpg-Acquires f [] e v b = (
  record f { next = suc f.next },
  record { address = f.next; kind = CodecType.k_jpg },
  ground arith,
  refl,
  record { pngs = Bucket-mono _ _ _ v.pngs; jpgs = Bucket-mono _ _ _ v.jpgs },
  record {
    known = omega arith;
    not_png = λ h. absurd (cc);
    not_jpg = λ _. Apart-above _ _ _ v.jpgs;
  },
)
jpg-Acquires f (x ∷ xs) e v b = (
  record f { jpg_pool = xs },
  x,
  ground arith,
  b.0,
  record { pngs = v.pngs; jpgs = b.3 },
  record { known = b.1; not_png = λ h. absurd (cc (b.0)); not_jpg = λ _. b.2 },
)

-- From a valid factory each of the two codec types gives a codec of that type; it is left in no pool,
-- and the factory stays valid: codecs stand in the pool of their type, each at an address of its own.
pub acquire_from_type_lem :
    (f : Factory) (t : CodecType)
    → IsValid f
    → t ≢ CodecType.count
    → (g : Factory) × (codec : Codec) × (acquire_from_type f t ≡ some (g, codec))
      × (codec.kind ≡ t)
      × IsValid g
      × Lent g codec
acquire_from_type_lem f CodecType.k_png v h = png-Acquires f f.png_pool refl v v.pngs
acquire_from_type_lem f CodecType.k_jpg v h = jpg-Acquires f f.jpg_pool refl v v.jpgs
acquire_from_type_lem f CodecType.count v h = absurd (h refl)

-- A codec that is lent goes back into the pool of its type, which stays valid, and the next
-- acquisition of that type returns the same codec and the factory as it was before.
pub reclaim_codec-acquire_from_type :
    (f : Factory) (codec : Codec)
    → IsValid f
    → Lent f codec
    → codec.kind ≢ CodecType.count
    → (g : Factory) × (reclaim_codec f codec ≡ some g)
      × IsValid g
      × (acquire_from_type g codec.kind ≡ some (f, codec))
unfolding reclaim_codec acquire_from_type
reclaim_codec-acquire_from_type f codec v l h = back codec.kind refl
  where
    back :
        (t : CodecType)
        → codec.kind ≡ t
        → (g : Factory) × (reclaim_codec f codec ≡ some g)
          × IsValid g
          × (acquire_from_type g codec.kind ≡ some (f, codec))
    back CodecType.k_png e = (
      record f { png_pool = codec ∷ f.png_pool },
      ground arith,
      record { pngs = (e, l.known, l.not_png e, v.pngs); jpgs = v.jpgs },
      ground arith,
    )
    back CodecType.k_jpg e = (
      record f { jpg_pool = codec ∷ f.jpg_pool },
      ground arith,
      record { pngs = v.pngs; jpgs = (e, l.known, l.not_jpg e, v.jpgs) },
      ground arith,
    )
    back CodecType.count e = absurd (h e)

-- By the data: a file with the PNG signature gets a PNG codec, one with the JPEG markers a JPEG
-- codec; any other file gets the null pointer, and the factory is left as it was.
pub acquire_from_data_lem :
    (f : Factory) (encoded : Bytes)
    → IsValid f
    → (g : Factory) × (codec : Option Codec) × (acquire_from_data f encoded ≡ some (g, codec))
      × (Option.map (λ (c : Codec). c.kind) codec ≡ (
          if png_can_decode encoded
          then some CodecType.k_png
          else if jpg_can_decode encoded
          then some CodecType.k_jpg
          else none))
      × IsValid g
unfolding acquire_from_data
acquire_from_data_lem f encoded v = elim (Bool-cases (png_can_decode encoded)) [
  | inl png ↦
      let (g, c, e, k, v', l) = png-Acquires f f.png_pool refl v v.pngs in
      (g, some c, rw (png, e), rw png (ap some k), v')
  | inr not_png ↦ elim (Bool-cases (jpg_can_decode encoded)) [
    | inl jpg ↦
        let (g, c, e, k, v', l) = jpg-Acquires f f.jpg_pool refl v v.jpgs in
        (g, some c, rw (not_png, jpg, e), rw (not_png, jpg) (ap some k), v')
    | inr not_jpg ↦ (f, none, rw (not_png, not_jpg), rw (not_png, not_jpg), v)
  ]
]
