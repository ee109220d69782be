-- ===== src/Processors/Rmbg/Image.antt =====
-- processors/rmbg/rmbg.cpp: the pixels that `process_image` reads.
use native.Mathlib.Nat.{mul-le-mul_left, le_of_mul-le-mul_left}
use limb_worker.Prelude.{
  ℕ, ◌*◌, ◌≤◌, ◌≡◌, ◌↔◌, ◌⊎◌, refl, Bool, true, false, Bool-cases, inl, inr, Option, List, [], ◌∷◌,
  arith, ◌==◌, if◌then◌else◌, Outcome,
}
use limb_worker.Status.{ReturnStatus}
use limb_worker.Processors.{int_fits}
use limb_worker.Processors.Rmbg.{
  Input, Output, PixelType, Gpu, Command, Calls, pixel_type, process_image,
}

-- Each reading of pixels, of as many bytes for each as ncnn takes for their type, is within a limit.
abbrev pub Within : (PixelType → ℕ) → ℕ → List Command → Type 0
Within bytes limit [] = Unit {0}
Within bytes limit (Command.resizes type w h to_w to_h ∷ cs) =
    (w * h * bytes type ≤ limit) × Within bytes limit cs
Within bytes limit (c ∷ cs) = Within bytes limit cs

abbrev pub WithinImage :
    (PixelType → ℕ) → Calls → Input → Outcome (Output × Option ReturnStatus × List Command) → Type 0
WithinImage bytes calls image Outcome.throws = Unit {0}
WithinImage bytes calls image Outcome.undefined = Unit {0}
WithinImage bytes calls image (Outcome.done (out, ret, commands)) =
    Within bytes (image.w * image.h * image.c) commands ↔ ((calls.reports ≡ false) ⊎ (3 ≤ image.c))

three_iff : (m c : ℕ) → 1 ≤ m → (m * 3 ≤ m * c) ↔ (3 ≤ c)
three_iff m c h = (λ e. le_of_mul-le-mul_left e h, λ e. mul-le-mul_left m e)

resized_iff :
    (bytes : PixelType → ℕ) (m c : ℕ)
    → bytes PixelType.rgb ≡ 3
    → bytes PixelType.rgba2rgb ≡ 4
    → 1 ≤ m
    → ((m * bytes (if c == 4 then PixelType.rgba2rgb else PixelType.rgb) ≤ m * c) × Unit {0})
      ↔ (3 ≤ c)
resized_iff bytes m c three four h = elim (Bool-cases (c == 4)) [
  | inl alpha ↦
      let four_channels : c ≡ 4 = ground (arith, alpha) in
      rw (alpha, four, four_channels) (λ e. omega arith, λ e. (omega arith, tt))
  | inr other ↦ rw (other, three) (λ e. (three_iff m c h).0 (e.0), λ e. ((three_iff m c h).1 e, tt))
]

-- With a callback that returns, one disjunct is left.
or_throws : {P : Type 0} {c : ℕ} → P ↔ (3 ≤ c) → P ↔ ((true ≡ false) ⊎ (3 ≤ c))
or_throws h = (λ p. inr (h.0 p), λ s. elim s [ inl e ↦ absurd (cc e) | inr q ↦ h.1 q ])

resized_within :
    (bytes : PixelType → ℕ) (gpu : Gpu) (reports creates_tensor runs gives_data allocates : Bool)
    (image : Input) (out : Output)
    → let calls : Calls = record {
      reports = reports;
      creates_tensor = creates_tensor;
      runs = runs;
      gives_data = gives_data;
      allocates = allocates;
    } in
      int_fits image.w image.h 4 ≡ true
      → ((image.w * image.h * bytes (pixel_type image) ≤ image.w * image.h * image.c) × Unit {0})
        ↔ (3 ≤ image.c)
      → WithinImage bytes calls image (process_image gpu calls image out)
unfolding process_image
resized_within bytes gpu false b c d e image out fits h = rw (fits) (λ f. inl refl, λ f. tt)
resized_within bytes gpu true false c d e image out fits h = rw (fits) (or_throws h)
resized_within bytes gpu true true false d e image out fits h = rw (fits) (or_throws h)
resized_within bytes gpu true true true false e image out fits h = rw (fits) (or_throws h)
resized_within bytes gpu true true true true false image out fits h = rw (fits) (or_throws h)
resized_within bytes gpu true true true true true image out fits h = rw (fits) (or_throws h)

-- For an image that is not empty, and ncnn's three bytes for each pixel of `PIXEL_RGB` and four of
-- `PIXEL_RGBA2RGB`: a call that is defined reads pixels inside the image exactly if the image has three
-- channels or more, or the progress callback throws before they are read.
pub process_image-WithinImage :
    (bytes : PixelType → ℕ) (gpu : Gpu) (calls : Calls) (image : Input) (out : Output)
    → bytes PixelType.rgb ≡ 3
    → bytes PixelType.rgba2rgb ≡ 4
    → 1 ≤ image.w * image.h
    → WithinImage bytes calls image (process_image gpu calls image out)
unfolding process_image
process_image-WithinImage bytes gpu calls image out three four some_pixels =
    elim (Bool-cases (int_fits image.w image.h 4)) [
      | inl fits ↦
          resized_within bytes gpu calls.reports calls.creates_tensor calls.runs calls.gives_data
            calls.allocates image out fits
            (resized_iff bytes (image.w * image.h) image.c three four some_pixels)
      | inr over ↦ rw (over) tt
    ]
