-- ===== src/Mongo/Upload/Chunks.antt =====
-- mongo-client.cpp: `updateImageById` writes the whole file, and gives back all but one handle.
use limb_worker.Prelude.{
  joined, joined-append, ◌&&◌, ℕ, zero, suc, ◌+◌, ◌-◌, ◌*◌, ◌/◌, ◌≤◌, ◌<◌, ◌≡◌, ◌↔◌, ◌^◌, refl, sym,
  ap, subst, ◌∙◌, Bool, true, not, some, List, [], ◌∷◌, ◌++◌, map, arith, ltb, length, take, drop,
  length-drop, take-append-drop, append_assoc, append-nil, if◌then◌else◌, Bytes, Bool-cases, inl,
  inr, ◌==◌,
}
use limb_worker.Status.{ReturnStatus}
use limb_worker.Mongo.Resources.{Resource, Event, held, held-writes}
use limb_worker.Mongo.Upload.{
  Driver, chunk_size, full_chunks, chunks, replace_file, update_image_by_id,
}

drop-nil : (n : ℕ) → drop {A = ℕ} n [] ≡ []
drop-nil zero = refl
drop-nil (suc n) = refl

drop-drop : (n m : ℕ) (xs : Bytes) → drop n (drop m xs) ≡ drop (m + n) xs
drop-drop n zero xs = let e : n ≡ 0 + n = omega arith in ap (λ t. drop t xs) e
drop-drop n (suc m) [] = drop-nil n ∙ sym (drop-nil (suc m + n))
drop-drop n (suc m) (x ∷ xs) =
    let e : suc (m + n) ≡ suc m + n = omega arith in drop-drop n m xs ∙ ap (λ t. drop t (x ∷ xs)) e

take-all : (n : ℕ) (xs : Bytes) → length xs ≤ n → take n xs ≡ xs
take-all zero [] h = refl
take-all (suc n) [] h = refl
take-all zero (x ∷ xs) h = absurd (omega arith)
take-all (suc n) (x ∷ xs) h = ap (λ zs. x ∷ zs) (take-all n xs (omega arith))

nil_of_length : (xs : Bytes) → length xs ≡ 0 → xs ≡ []
nil_of_length [] h = refl
nil_of_length (x ∷ xs) h = absurd (omega arith)

-- The written bytes from round `i` on, and what is left, are what stood behind the earlier rounds.
full_chunks-drop :
    (c n i : ℕ) (xs : Bytes)
    → c ≡ chunk_size
    → joined (full_chunks n i xs) ++ drop (c * (i + n)) xs ≡ drop (c * i) xs
unfolding full_chunks
full_chunks-drop c zero i xs h =
    let e : c * (i + 0) ≡ c * i = omega (arith, h) in ap (λ t. drop t xs) e
full_chunks-drop c (suc n) i xs h =
    let e : c * (i + suc n) ≡ c * (i + 1 + n) = omega (arith, h) in
    let f : c * i + c ≡ c * (i + 1) = omega (arith, h) in
    let piece = take c (drop (c * i) xs) in
    subst
      (λ d.
        (take d (drop (d * i) xs) ++ joined (full_chunks n (i + 1) xs)) ++ drop (c * (i + suc n)) xs
        ≡ drop (c * i) xs)
      h
      (append_assoc piece (joined (full_chunks n (i + 1) xs)) (drop (c * (i + suc n)) xs)
        ∙ ap (λ t. piece ++ (joined (full_chunks n (i + 1) xs) ++ drop t xs)) e
        ∙ ap (λ zs. piece ++ zs) (full_chunks-drop c n (i + 1) xs h)
        ∙ ap (λ t. piece ++ drop t xs) (sym f)
        ∙ ap (λ zs. piece ++ zs) (sym (drop-drop c (c * i) xs))
        ∙ take-append-drop c (drop (c * i) xs))

abbrev rest_of : Bytes → ℕ
rest_of filedata = length filedata - chunk_size * (length filedata / chunk_size)

rest_lem :
    (xs : Bytes)
    → joined (
        if ltb 0 (rest_of xs)
        then take (rest_of xs) (drop (length xs - rest_of xs) xs) ∷ []
        else [])
      ≡ drop (chunk_size * (length xs / chunk_size)) xs
rest_lem xs =
    let front = chunk_size * (length xs / chunk_size) in
    let tail_length : length (drop front xs) ≡ rest_of xs = length-drop front xs in
    elim (Bool-cases (ltb 0 (rest_of xs))) [
      | inl more ↦
          let e : length xs - rest_of xs ≡ front = omega arith in
          rw (more) (
            append-nil (take (rest_of xs) (drop (length xs - rest_of xs) xs))
            ∙ ap (λ t. take (rest_of xs) (drop t xs)) e
            ∙ take-all (rest_of xs) (drop front xs) (omega (arith, tail_length)))
      | inr none_left ↦
          rw (none_left) (sym (nil_of_length (drop front xs) (tail_length ∙ ground arith)))
    ]

-- The writes, joined in their order, are the file.
joined-chunks : (xs : Bytes) → joined (chunks xs) ≡ xs
unfolding chunks
joined-chunks xs =
    let n = length xs / chunk_size in
    let e : chunk_size * (0 + n) ≡ chunk_size * n = omega arith in
    joined-append (full_chunks n 0 xs)
      (if ltb 0 (rest_of xs) then take (rest_of xs) (drop (length xs - rest_of xs) xs) ∷ [] else [])
    ∙ ap (λ zs. joined (full_chunks n 0 xs) ++ zs) (rest_lem xs)
    ∙ ap (λ t. joined (full_chunks n 0 xs) ++ drop t xs) (sym e)
    ∙ full_chunks-drop chunk_size n 0 xs refl

-- The bytes that the writes hand over.
abbrev pub written : List Event → Bytes
written [] = []
written (Event.takes r ∷ es) = written es
written (Event.frees r ∷ es) = written es
written (Event.removes_file ∷ es) = written es
written (Event.writes bytes ∷ es) = bytes ++ written es

written-writes :
    (cs : List Bytes) (es : List Event)
    → written (map Event.writes cs ++ es) ≡ joined cs ++ written es
written-writes [] es = refl
written-writes (c ∷ cs) es =
    ap (λ zs. c ++ zs) (written-writes cs es) ∙ sym (append_assoc c (joined cs) (written es))

-- Everything up to the removal of the old file succeeds.
abbrev pub removed : Bool → Driver → ℕ → Bool
removed client_pool d size =
    (size == 24)
    && client_pool
    && d.pool_pop
    && d.get_database
    && d.bucket_new
    && d.get_gridfs
    && not d.file_not_found
    && d.find_file
    && d.remove_file

abbrev opened : List Resource
opened =
    Resource.stream ∷ Resource.upload_source ∷ Resource.file ∷ Resource.gridfs ∷ Resource.bucket
    ∷ Resource.database ∷ Resource.client ∷ []

abbrev closing : List Event
closing =
    Event.frees Resource.file
    ∷ Event.frees Resource.gridfs
    ∷ Event.frees Resource.stream
    ∷ Event.frees Resource.bucket
    ∷ Event.frees Resource.database
    ∷ Event.frees Resource.client
    ∷ []

abbrev Replaced : Driver → Bytes → Type 0
Replaced d filedata =
    let (events, ret) = replace_file d filedata in
    ((ret ≡ ReturnStatus.k_ok) ↔ ((d.remove_file && d.open_stream) ≡ true))
    × (written events ≡ (if d.remove_file && d.open_stream then filedata else []))
    × (held [] events ≡ some (if d.remove_file then Resource.upload_source ∷ [] else []))

replace_file-Replaced : (d : Driver) (filedata : Bytes) → Replaced d filedata
unfolding replace_file
replace_file-Replaced d filedata = ground (
  arith,
  held-writes opened (chunks filedata) closing,
  written-writes (chunks filedata) closing,
  joined-chunks filedata,
  append-nil filedata,
)

-- For any pool, any answers of the driver, any id and any file below 2 ^ 31 bytes: the call returns
-- kOk exactly if the old file is removed and the new stream opens; then the writes, in their order,
-- hand over the whole file, and else nothing. Every handle that is taken is given back once, but for
-- the stream of `mongoc_stream_gridfs_new`, which is kept whenever the old file is removed.
pub update_image_by_id_lem :
    (client_pool : Bool) (d : Driver) (size : ℕ) (filedata : Bytes)
    → length filedata < 2 ^ 31
    → let (events, ret) = update_image_by_id client_pool d size filedata in
      let old_removed = removed client_pool d size in
      ((ret ≡ ReturnStatus.k_ok) ↔ ((old_removed && d.open_stream) ≡ true))
      × (written events ≡ (if old_removed && d.open_stream then filedata else []))
      × (held [] events ≡ some (if old_removed then Resource.upload_source ∷ [] else []))
unfolding update_image_by_id
update_image_by_id_lem client_pool d size filedata h =
    ground (arith, replace_file-Replaced d filedata)
