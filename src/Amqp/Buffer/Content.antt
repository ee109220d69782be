-- ===== src/Amqp/Buffer/Content.antt =====
-- amqp-handler.cpp: `Buffer` as a bounded sequence of bytes.
use limb_worker.Prelude.{
  Bytes, ℕ, suc, ◌+◌, ◌-◌, ◌^◌, ◌≤◌, ◌<◌, ◌≡◌, refl, ap, sym, subst, ◌∙◌, [], ◌∷◌, ◌++◌, arith,
  length, take, drop, min, length-take, length-drop, length-append, append-nil, Bool-cases, ◌==◌,
  inl, inr, zero,
}
use limb_worker.Amqp.Buffer.{Buffer, write, write_size, content, copy_to, shl, drain}

-- The used bytes stand in the vector, whose length leaves room in a `size_t`.
pub record IsValid (b : Buffer) : Type 0 where
  pub fits : b.used ≤ length b.bytes
  pub small : length b.bytes < 2 ^ 63

take-append : (xs ys : Bytes) (n : ℕ) → take (length xs + n) (xs ++ ys) ≡ xs ++ take n ys
take-append [] ys n = let e : length {A = ℕ} [] + n ≡ n = omega arith in ap (λ m. take m ys) e
take-append (x ∷ xs) ys n =
    let e : length (x ∷ xs) + n ≡ suc (length xs + n) = omega arith in
    ap (λ m. take m (x ∷ (xs ++ ys))) e ∙ ap (λ zs. x ∷ zs) (take-append xs ys n)

take-all : (xs ys : Bytes) → take (length xs) (xs ++ ys) ≡ xs
take-all [] ys = refl
take-all (x ∷ xs) ys = ap (λ zs. x ∷ zs) (take-all xs ys)

length-copy_to :
    (offset : ℕ) (source target : Bytes)
    → offset + length source ≤ length target
    → length (copy_to offset source target) ≡ length target
length-copy_to offset source target h = omega (
  arith,
  length-append (take offset target) (source ++ drop (offset + length source) target),
  length-append source (drop (offset + length source) target),
  length-take offset target,
  length-drop (offset + length source) target,
)

-- The copied bytes stand behind the ones before the offset.
take-copy_to :
    (offset : ℕ) (source target : Bytes)
    → offset ≤ length target
    → take (offset + length source) (copy_to offset source target) ≡ take offset target ++ source
take-copy_to offset source target h =
    subst
      (λ n. take (n + length source) (copy_to offset source target) ≡ take offset target ++ source)
      {x = length (take offset target)} {y = offset} (omega (arith, length-take offset target))
      (take-append (take offset target) (source ++ drop (offset + length source) target)
          (length source)
        ∙ ap (λ zs. take offset target ++ zs)
            (take-all source (drop (offset + length source) target)))

-- The written size is as much as there is room for.
write_size_lem :
    (b : Buffer) (size : ℕ)
    → IsValid b
    → size < 2 ^ 63
    → write_size b size ≡ min size (length b.bytes - b.used)
write_size_lem b size v h = ground (arith, v.fits, v.small)

-- On a valid buffer and fewer than 2 ^ 63 bytes, `write` takes as many bytes as there is room for,
-- from the front, appends them to the content, and keeps the capacity and the validity.
pub write_lem :
    (b : Buffer) (bytes : Bytes)
    → IsValid b
    → length bytes < 2 ^ 63
    → let (b', count) = write b bytes in
      (count ≡ min (length bytes) (length b.bytes - b.used))
      × (content b' ≡ content b ++ take count bytes)
      × (length b'.bytes ≡ length b.bytes)
      × IsValid b'
unfolding write
write_lem b bytes v h = elim (Bool-cases (b.used == length b.bytes)) [
  | inl full ↦ rw (full) (ground (arith, full), sym (append-nil (content b)), refl, v)
  | inr free ↦
      let count = write_size b (length bytes) in
      let e : count ≡ min (length bytes) (length b.bytes - b.used) =
        write_size_lem b (length bytes) v h in
      let n : length (take count bytes) ≡ count = omega (arith, e, length-take count bytes) in
      let same : length (copy_to b.used (take count bytes) b.bytes) ≡ length b.bytes =
        length-copy_to b.used (take count bytes) b.bytes (omega (arith, n, e, v.fits)) in
      rw (free) (
        e,
        ap (λ m. take (b.used + m) (copy_to b.used (take count bytes) b.bytes)) (sym n)
            ∙ take-copy_to b.used (take count bytes) b.bytes v.fits,
        same,
        record { fits = omega (arith, e, same, v.fits); small = omega (arith, same, v.small) },
      )
]

take-nil : (n : ℕ) → take {A = ℕ} n [] ≡ []
take-nil zero = refl
take-nil (suc n) = refl

drop-take : (n m : ℕ) (xs : Bytes) → drop n (take (n + m) xs) ≡ take m (drop n xs)
drop-take zero m xs = let e : 0 + m ≡ m = omega arith in ap (λ k. take k xs) e
drop-take (suc n) m [] = ap (λ zs. drop (suc n) zs) (take-nil (suc n + m)) ∙ sym (take-nil m)
drop-take (suc n) m (x ∷ xs) =
    let e : suc n + m ≡ suc (n + m) = omega arith in
    ap (λ k. drop (suc n) (take k (x ∷ xs))) e ∙ drop-take n m xs

-- On a valid buffer and a count of at most the used bytes, `shl` drops as many bytes from the front
-- of the content, and keeps the capacity and the validity.
pub shl_lem :
    (b : Buffer) (count : ℕ)
    → IsValid b
    → count ≤ b.used
    → let b' = shl b count in
      (content b' ≡ drop count (content b)) × (length b'.bytes ≡ length b.bytes) × IsValid b'
shl_lem b count v h =
    let kept = take (b.used - count) (drop count b.bytes) in
    let n : length kept ≡ b.used - count = omega (
      arith,
      length-take (b.used - count) (drop count b.bytes),
      length-drop count b.bytes,
      v.fits,
      h,
    ) in
    let same : length (copy_to 0 kept b.bytes) ≡ length b.bytes =
      length-copy_to 0 kept b.bytes (omega (arith, n, v.fits)) in
    let used : count + (b.used - count) ≡ b.used = omega (arith, h) in
    let size : b.used - count ≡ 0 + length kept = omega (arith, n) in
    (
      ap (λ m. take m (copy_to 0 kept b.bytes)) size
          ∙ take-copy_to 0 kept b.bytes (omega arith)
          ∙ sym (drop-take count (b.used - count) b.bytes)
          ∙ ap (λ m. drop count (take m b.bytes)) used,
      same,
      record { fits = omega (arith, same, v.fits); small = omega (arith, same, v.small) },
    )

pub drain_lem :
    (b : Buffer)
    → IsValid b
    → (content (drain b) ≡ []) × (length (drain b).bytes ≡ length b.bytes) × IsValid (drain b)
drain_lem b v = (refl, refl, record { fits = omega arith; small = v.small })
