-- ===== src/Mongo/Download/Whole.antt =====
-- mongo-client.cpp: `getImageById` loads the whole file, and leaves nothing held.
use limb_worker.Prelude.{
  joined, ℕ, ◌+◌, ◌^◌, ◌<◌, ◌≡◌, refl, Bool, true, false, some, List, [], ◌∷◌, ◌++◌, map, arith,
  ltb, lt→ltb, length, length-append, append_assoc, append-nil, Bytes, Outcome, Outcome-cases, inl,
  inr,
}
use limb_worker.Status.{ReturnStatus}
use limb_worker.Mongo.Resources.{Resource, Event, held}
use limb_worker.Mongo.Download.{Read, Driver, Pointer, Download, read_all, get_image_by_id}

abbrev pub file_events : List Event
file_events =
    Event.takes Resource.client
    ∷ Event.takes Resource.database
    ∷ Event.takes Resource.bucket
    ∷ Event.takes Resource.stream
    ∷ Event.frees Resource.client
    ∷ Event.frees Resource.database
    ∷ Event.frees Resource.bucket
    ∷ Event.frees Resource.stream
    ∷ []

-- Where the file ends up: a file with no chunk leaves the null pointer.
abbrev pub pointer_to : List Bytes → Pointer
pointer_to [] = Pointer.null
pointer_to (c ∷ cs) = Pointer.buffer (joined (c ∷ cs))

read_all-buffer :
    (allocates : ℕ → Bool) (cs : List Bytes) (bs : Bytes)
    → ((n : ℕ) → allocates n ≡ true)
    → length bs + length (joined cs) < 2 ^ 31
    → read_all allocates (map Read.chunk cs) (Pointer.buffer bs) (length bs)
      ≡ Outcome.done
          (Pointer.buffer (bs ++ joined cs), length bs + length (joined cs), ReturnStatus.k_ok)
unfolding read_all
read_all-buffer allocates [] bs enough h = rw (append-nil bs) (ground arith)
read_all-buffer allocates (c ∷ cs) bs enough h =
    let sum : length (c ++ joined cs) ≡ length c + length (joined cs) =
      length-append c (joined cs) in
    let size : length (bs ++ c) ≡ length bs + length c = length-append bs c in
    let small : ltb (length bs + length c) (2 ^ 31) ≡ true = lt→ltb _ _ (omega (arith, sum)) in
    let ih = read_all-buffer allocates cs (bs ++ c) enough (omega (arith, sum, size)) in
    let assoc = append_assoc bs c (joined cs) in
    ground (arith, enough (length bs + length c), sum, size, small, ih, assoc)

read_all-whole :
    (allocates : ℕ → Bool) (cs : List Bytes)
    → ((n : ℕ) → allocates n ≡ true)
    → length (joined cs) < 2 ^ 31
    → read_all allocates (map Read.chunk cs) Pointer.null 0
      ≡ Outcome.done (pointer_to cs, length (joined cs), ReturnStatus.k_ok)
unfolding read_all
read_all-whole allocates [] enough h = refl
read_all-whole allocates (c ∷ cs) enough h =
    let sum : length (c ++ joined cs) ≡ length c + length (joined cs) =
      length-append c (joined cs) in
    let small : ltb (0 + length c) (2 ^ 31) ≡ true = lt→ltb _ _ (omega (arith, sum)) in
    let ih = read_all-buffer allocates cs c enough (omega (arith, sum)) in
    ground (arith, enough (0 + length c), sum, small, ih)

-- With every call of the driver answered and every allocation granted, a stream that gives the chunks
-- and then ends loads all of them, in order, into one buffer, for a file below 2 ^ 31 bytes.
pub get_image_by_id-whole :
    (d : Driver) (cs : List Bytes)
    → d.pool_pop ≡ true
    → d.get_database ≡ true
    → d.bucket_new ≡ true
    → d.file_not_found ≡ false
    → d.open_stream ≡ true
    → d.reads ≡ map Read.chunk cs
    → ((n : ℕ) → d.allocates n ≡ true)
    → length (joined cs) < 2 ^ 31
    → get_image_by_id true d 24
      ≡ Outcome.done (record {
        status = ReturnStatus.k_ok;
        out = some (pointer_to cs, length (joined cs));
        events = file_events;
      })
unfolding get_image_by_id
get_image_by_id-whole d cs p g b n o r enough h =
    ground (arith, read_all-whole d.allocates cs enough h)

-- Whatever the driver and the memory answer, for any pool and any id: if the call returns, every
-- handle that it took has been given back once, and none that it did not take.
pub get_image_by_id-held :
    (client_pool : Bool) (d : Driver) (size : ℕ) {r : Download}
    → get_image_by_id client_pool d size ≡ Outcome.done r
    → held [] r.events ≡ some []
unfolding get_image_by_id
get_image_by_id-held client_pool d size h =
    elim (Outcome-cases (read_all d.allocates d.reads Pointer.null 0)) [
      | inl e ↦ ground arith
      | inr (inl e) ↦ ground arith
      | inr (inr ((out, n, ret), e)) ↦ ground arith
    ]
