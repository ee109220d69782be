-- ===== src/Processors/Loopback.antt =====
-- processors/loopback/loopback.cpp: the processor that copies its input.
use limb_worker.Prelude.{
  ℕ, ◌*◌, ◌≡◌, refl, true, not, Bytes, List, [], ◌∷◌, ltb, le→ltb, if◌then◌else◌, Outcome, length,
  take, arith, sym, ap,
}
use limb_worker.Status.{ReturnStatus}
use limb_worker.Service.Process.{ImageInfo}
use limb_worker.Processors.{int_fits}

-- The image, the status, and the progress that is reported. The call reads the bytes that the sizes
-- say; `size` stays what the caller passes.
pub process_image : ImageInfo → ImageInfo → Outcome (ImageInfo × ReturnStatus × List ℕ)
process_image inimage outimage =
    let datasize = inimage.w * inimage.h * inimage.c in
    if not (int_fits inimage.w inimage.h inimage.c)
    then Outcome.undefined
    else if ltb (length inimage.pixels) datasize
    then Outcome.undefined
    else Outcome.done (
      record {
        pixels = take datasize inimage.pixels;
        size = outimage.size;
        w = inimage.w;
        h = inimage.h;
        c = inimage.c;
      },
      ReturnStatus.k_ok,
      0 ∷ 1 ∷ [],
    )

take_whole : (xs : Bytes) → take (length xs) xs ≡ xs
take_whole [] = refl
take_whole (x ∷ xs) = ap (◌∷◌ x) (take_whole xs)

-- An image whose pixels are as many bytes as its sizes say, in an `int`: the call returns kOk with the
-- same pixels and sizes, leaves the size field of the result as it was, and reports 0 and then 1.
pub process_image-copies :
    (inimage outimage : ImageInfo)
    → int_fits inimage.w inimage.h inimage.c ≡ true
    → length inimage.pixels ≡ inimage.w * inimage.h * inimage.c
    → process_image inimage outimage
      ≡ Outcome.done (record inimage { size = outimage.size }, ReturnStatus.k_ok, 0 ∷ 1 ∷ [])
unfolding process_image
process_image-copies inimage outimage fits whole =
    rw
      (
        fits,
        le→ltb (length inimage.pixels) (inimage.w * inimage.h * inimage.c) (omega (arith, whole)),
        sym whole,
      )
      (ap
        (λ pixels.
          Outcome.done (
            record inimage { pixels = pixels; size = outimage.size },
            ReturnStatus.k_ok,
            0 ∷ 1 ∷ [],
          ))
        (take_whole inimage.pixels))
