-- ===== src/Mongo/Upload.antt =====
-- mongo-client.cpp: `updateImageById`.
pub mod Chunks
use limb_worker.Prelude.{
  ℕ, zero, suc, ◌+◌, ◌-◌, ◌*◌, ◌/◌, Bool, true, false, not, List, [], ◌∷◌, ◌++◌, ◌==◌, ltb,
  if◌then◌else◌, length, take, drop, map, Bytes,
}
use limb_worker.Status.{ReturnStatus}
use limb_worker.Mongo.Resources.{Resource, Event}

-- What the driver answers.
pub record Driver : Type 0 where
  pub pool_pop : Bool
  pub get_database : Bool
  pub bucket_new : Bool
  pub get_gridfs : Bool
  pub file_not_found : Bool
  pub find_file : Bool
  pub remove_file : Bool
  pub open_stream : Bool

-- Which of the handles are not null at the end.
pub record Handles : Type 0 where
  pub client : Bool
  pub database : Bool
  pub bucket : Bool
  pub gridfs : Bool
  pub file : Bool
  pub stream : Bool

abbrev none_open : Handles
none_open = record {
  client = false;
  database = false;
  bucket = false;
  gridfs = false;
  file = false;
  stream = false;
}

abbrev frees_if : Bool → Resource → List Event
frees_if true r = Event.frees r ∷ []
frees_if false r = []

abbrev takes_if : Bool → Resource → List Event
takes_if true r = Event.takes r ∷ []
takes_if false r = []

-- The tests behind the `do`, in their order.
abbrev pub cleanup : Handles → List Event
cleanup h =
    frees_if h.file Resource.file
    ++ (frees_if h.gridfs Resource.gridfs
        ++ (frees_if h.stream Resource.stream
            ++ (frees_if h.bucket Resource.bucket
                ++ (frees_if h.database Resource.database ++ frees_if h.client Resource.client))))

abbrev pub chunk_size : ℕ
chunk_size = 4096

-- The loop with `n` rounds left, from round `i`: the bytes of each write. What a write returns is
-- summed up, and the sum is not used. The products are `int`, which holds them below 2 ^ 31 bytes.
pub full_chunks : ℕ → ℕ → Bytes → List Bytes
full_chunks zero i filedata = []
full_chunks (suc n) i filedata =
    take chunk_size (drop (chunk_size * i) filedata) ∷ full_chunks n (i + 1) filedata

unfoldable pub chunks : Bytes → List Bytes
unfolding full_chunks
chunks filedata =
    let total_chunks = length filedata / chunk_size in
    let rest_chunk = length filedata - chunk_size * total_chunks in
    full_chunks total_chunks 0 filedata
    ++ (if ltb 0 rest_chunk
        then take rest_chunk (drop (length filedata - rest_chunk) filedata) ∷ []
        else [])

-- What the calls took before the upload, then the given events, then the tests behind the `do`.
abbrev pub finish : Handles → List Event → List Event
finish h events =
    takes_if h.client Resource.client
    ++ (takes_if h.database Resource.database
        ++ (takes_if h.bucket Resource.bucket
            ++ (takes_if h.gridfs Resource.gridfs
                ++ (takes_if h.file Resource.file ++ (events ++ cleanup h)))))

-- From the removal of the old file on.
pub replace_file : Driver → Bytes → List Event × ReturnStatus
replace_file d filedata =
    let h : Handles = record none_open {
      client = true;
      database = true;
      bucket = true;
      gridfs = true;
      file = true;
    } in
    if not d.remove_file
    then (finish h [], ReturnStatus.k_unknown)
    else if not d.open_stream
    then (
      finish h (Event.removes_file ∷ Event.takes Resource.upload_source ∷ []),
      ReturnStatus.k_unknown,
    )
    else (
      finish (record h { stream = true })
          (Event.removes_file
            ∷ Event.takes Resource.upload_source
            ∷ Event.takes Resource.stream
            ∷ map Event.writes (chunks filedata)),
      ReturnStatus.k_ok,
    )

-- With a popped client.
update_with : Driver → Bytes → List Event × ReturnStatus
unfolding replace_file
update_with d filedata =
    let a : Handles = record none_open { client = true } in
    let b : Handles = record a { database = true } in
    let c : Handles = record b { bucket = true } in
    let e : Handles = record c { gridfs = true } in
    if not d.get_database
    then (finish a [], ReturnStatus.k_aborted)
    else if not d.bucket_new
    then (finish b [], ReturnStatus.k_aborted)
    else if not d.get_gridfs
    then (finish c [], ReturnStatus.k_aborted)
    else if d.file_not_found
    then (finish (record e { file = d.find_file }) [], ReturnStatus.k_not_found)
    else if not d.find_file
    then (finish e [], ReturnStatus.k_unknown)
    else replace_file d filedata

-- The first argument is whether `m_cPool` is not null, the third the length of the id.
pub update_image_by_id : Bool → Driver → ℕ → Bytes → List Event × ReturnStatus
unfolding update_with
update_image_by_id client_pool d size filedata =
    if not (size == 24)
    then ([], ReturnStatus.k_invalid_input)
    else if not client_pool
    then ([], ReturnStatus.k_uninitialized)
    else if not d.pool_pop
    then ([], ReturnStatus.k_uninitialized)
    else update_with d filedata
