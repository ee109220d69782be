-- ===== src/Image/Codec/Signatures.antt =====
-- png-codec.cpp and jpg-codec.cpp: `canDecode` as a statement about the bytes.
use limb_worker.Prelude.{
  Bytes, ℕ, zero, suc, ◌+◌, ◌-◌, ◌≤◌, ◌≡◌, ◌↔◌, refl, sym, ap, true, some, [], ◌∷◌, ◌++◌, arith,
  length, get_elem?, drop, take, ◌∙◌, length-append, take-append-drop,
}
use limb_worker.Image.Codec.{
  png_signature, jpeg_signature_start, jpeg_signature_end, matches_at, png_can_decode,
  jpg_can_decode,
}

drop-get_elem? :
    (xs : Bytes) (o : ℕ) {x : ℕ} → get_elem? xs o ≡ some x → drop o xs ≡ x ∷ drop (suc o) xs
drop-get_elem? [] o e = absurd (cc)
drop-get_elem? (y ∷ ys) zero e = ground arith
drop-get_elem? (y ∷ ys) (suc o) e = drop-get_elem? ys o e

get_elem?-drop :
    (xs : Bytes) (o : ℕ) {x : ℕ} {ys : Bytes}
    → drop o xs ≡ x ∷ ys
    → (get_elem? xs o ≡ some x) × (drop (suc o) xs ≡ ys)
get_elem?-drop [] zero e = absurd (cc)
get_elem?-drop [] (suc o) e = absurd (cc)
get_elem?-drop (z ∷ zs) zero e = (cc, cc)
get_elem?-drop (z ∷ zs) (suc o) e = get_elem?-drop zs o e

matches_at_sound :
    (xs : Bytes) (o : ℕ) (sig : Bytes)
    → matches_at xs o sig ≡ true
    → (rest : Bytes) × (drop o xs ≡ sig ++ rest)
unfolding matches_at
matches_at_sound xs o [] h = (drop o xs, refl)
matches_at_sound xs o (b ∷ sig) h =
    let first : get_elem? xs o ≡ some b = ground arith in
    let (rest, e) = matches_at_sound xs (suc o) sig (ground arith) in
    (rest, drop-get_elem? xs o first ∙ ap (◌∷◌ b) e)

matches_at_complete :
    (xs : Bytes) (o : ℕ) (sig rest : Bytes) → drop o xs ≡ sig ++ rest → matches_at xs o sig ≡ true
unfolding matches_at
matches_at_complete xs o [] rest e = refl
matches_at_complete xs o (b ∷ sig) rest e =
    let (first, later) = get_elem?-drop xs o e in
    ground (arith, matches_at_complete xs (suc o) sig rest later)

-- The PNG codec takes a file exactly if it begins with the eight signature bytes.
pub png_can_decode_iff :
    (encoded : Bytes)
    → (png_can_decode encoded ≡ true) ↔ ((rest : Bytes) × (encoded ≡ png_signature ++ rest))
unfolding png_can_decode
png_can_decode_iff encoded = (
  λ h. matches_at_sound encoded 0 png_signature (ground arith),
  λ (rest, e). ground (arith, matches_at_complete encoded 0 png_signature rest e, ap length e),
)

length-drop_add : (xs : Bytes) (n : ℕ) → n ≤ length xs → length (drop n xs) + n ≡ length xs
length-drop_add xs zero h = omega arith
length-drop_add [] (suc n) h = absurd (omega arith)
length-drop_add (x ∷ xs) (suc n) h = omega (arith, length-drop_add xs n (omega arith))

nil_of_length : (xs : Bytes) → length xs ≡ 0 → xs ≡ []
nil_of_length [] h = refl
nil_of_length (x ∷ xs) h = absurd (omega arith)

drop-append : (xs ys : Bytes) → drop (length xs) (xs ++ ys) ≡ ys
drop-append [] ys = refl
drop-append (x ∷ xs) ys = drop-append xs ys

-- The bytes behind the first marker, when the last two are the end marker.
jpg_middle :
    (encoded rest tail : Bytes)
    → 4 ≤ length encoded
    → encoded ≡ jpeg_signature_start ++ rest
    → drop (length encoded - 2) encoded ≡ jpeg_signature_end ++ tail
    → rest ≡ take (length encoded - 4) rest ++ jpeg_signature_end
jpg_middle encoded rest tail h e e' =
    let n : length encoded ≡ length rest + 2 = omega (arith, ap length e) in
    let cut : drop (length encoded - 4) rest ≡ jpeg_signature_end ++ tail =
      ap (λ (k : ℕ). drop k (jpeg_signature_start ++ rest)) {x = suc (suc (length encoded - 4))}
        {y = length encoded - 2} (omega arith)
      ∙ ap (drop (length encoded - 2)) (sym e)
      ∙ e' in
    let short : length tail ≡ 0 =
      omega (arith, ap length cut, length-drop_add rest (length encoded - 4) (omega arith)) in
    sym (take-append-drop (length encoded - 4) rest)
    ∙ ap (λ (t : Bytes). take (length encoded - 4) rest ++ t)
        (cut ∙ ap (λ (t : Bytes). jpeg_signature_end ++ t) (nil_of_length tail short))

jpg_end :
    (encoded middle : Bytes)
    → encoded ≡ jpeg_signature_start ++ (middle ++ jpeg_signature_end)
    → drop (length encoded - 2) encoded ≡ jpeg_signature_end
jpg_end encoded middle e =
    let n : length encoded - 2 ≡ suc (suc (length middle)) =
      omega (arith, ap length e, length-append middle jpeg_signature_end) in
    ap (drop (length encoded - 2)) e
    ∙ ap (λ (k : ℕ). drop k (jpeg_signature_start ++ (middle ++ jpeg_signature_end))) n
    ∙ drop-append middle jpeg_signature_end

-- The JPEG codec takes a file exactly if it begins with FF D8 and ends with FF D9, the two markers
-- apart.
pub jpg_can_decode_iff :
    (encoded : Bytes)
    → (jpg_can_decode encoded ≡ true)
      ↔ ((middle : Bytes) × (encoded ≡ jpeg_signature_start ++ (middle ++ jpeg_signature_end)))
unfolding jpg_can_decode
jpg_can_decode_iff encoded = (
  λ h.
      let long : 4 ≤ length encoded = ground arith in
      let (rest, e) = matches_at_sound encoded 0 jpeg_signature_start (ground arith) in
      let (tail, e') =
        matches_at_sound encoded (length encoded - 2) jpeg_signature_end (ground arith) in
      (
        take (length encoded - 4) rest,
        e ∙ ap (λ (t : Bytes). jpeg_signature_start ++ t) (jpg_middle encoded rest tail long e e'),
      ),
  λ (middle, e). ground (
    arith,
    matches_at_complete encoded 0 jpeg_signature_start (middle ++ jpeg_signature_end) e,
    matches_at_complete encoded (length encoded - 2) jpeg_signature_end []
        (jpg_end encoded middle e),
    ap length e,
    length-append middle jpeg_signature_end,
  ),
)
