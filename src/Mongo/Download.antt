-- ===== src/Mongo/Download.antt =====
-- mongo-client.cpp: `getImageById`.
pub mod Whole
use limb_worker.Prelude.{
  ℕ, zero, suc, ◌+◌, ◌-◌, ◌^◌, Bool, true, false, not, Option, none, some, List, [], ◌∷◌, ◌++◌,
  ◌==◌, ltb, leb, if◌then◌else◌, length, Bytes, Outcome, ◌>>=◌,
}
use limb_worker.Status.{ReturnStatus}
use limb_worker.Mongo.Resources.{Resource, Event}

-- What `mongoc_stream_readv` returns: bytes, or minus a number that is not 0. A 0 ends the list.
pub data Read : Type 0 where
  chunk : Bytes → Read
  fails : ℕ → Read

-- What the driver and the memory answer. `file_not_found` is the code that opening the stream sets.
pub record Driver : Type 0 where
  pub pool_pop : Bool
  pub get_database : Bool
  pub bucket_new : Bool
  pub file_not_found : Bool
  pub open_stream : Bool
  pub reads : List Read
  pub allocates : ℕ → Bool

-- `outBuf`: null, or the memory with what was copied to it; `dangling` after it has been freed.
pub data Pointer : Type 0 where
  null dangling : Pointer
  buffer : Bytes → Pointer

-- `out` is what the call leaves in `*filedata` and `*filesize`, `none` if it does not write them.
pub record Download : Type 0 where
  pub status : ReturnStatus
  pub out : Option (Pointer × ℕ)
  pub events : List Event

-- Which of the handles are not null at the end.
pub record Handles : Type 0 where
  pub client : Bool
  pub database : Bool
  pub bucket : Bool
  pub stream : Bool

abbrev frees_if : Bool → Resource → List Event
frees_if true r = Event.frees r ∷ []
frees_if false r = []

abbrev cleanup : Handles → List Event
cleanup h =
    frees_if h.client Resource.client
    ++ (frees_if h.database Resource.database
        ++ (frees_if h.bucket Resource.bucket ++ frees_if h.stream Resource.stream))

-- The size for `malloc`, or for `realloc` of a buffer of `size` bytes, where `r` is minus `n`: the sum
-- is a `size_t`.
abbrev negative_size : ℕ → ℕ → ℕ
negative_size size n = if leb n size then size - n else 2 ^ 64 + size - n

-- What `free` and the break leave where the memory is refused.
abbrev refused : Pointer → Pointer
refused Pointer.null = Pointer.null
refused Pointer.dangling = Pointer.dangling
refused (Pointer.buffer bytes) = Pointer.dangling

abbrev contents : Pointer → Bytes
contents Pointer.null = []
contents Pointer.dangling = []
contents (Pointer.buffer bytes) = bytes

-- The loop over the reads. `bufSize` is an `int`: from 2 ^ 31 on it is negative, and the next copy goes
-- before the buffer. A negative read for which the memory is found copies nearly 2 ^ 64 bytes.
read_all : (ℕ → Bool) → List Read → Pointer → ℕ → Outcome (Pointer × ℕ × ReturnStatus)
read_all allocates [] out size = Outcome.done (out, size, ReturnStatus.k_ok)
read_all allocates (Read.fails n ∷ reads) out size =
    if allocates (negative_size size n)
    then Outcome.undefined
    else Outcome.done (refused out, size, ReturnStatus.k_out_of_memory)
read_all allocates (Read.chunk bytes ∷ reads) out size =
    let size' = size + length bytes in
    let rest = read_all allocates reads (Pointer.buffer (contents out ++ bytes)) size' in
    if allocates size'
    then (if ltb size' (2 ^ 31) then rest else Outcome.undefined)
    else Outcome.done (refused out, size, ReturnStatus.k_out_of_memory)

abbrev taken : List Resource → List Event
taken [] = []
taken (r ∷ rs) = Event.takes r ∷ taken rs

-- The part from the popped client on, inside the `do`.
download_from : Driver → Outcome Download
unfolding read_all
download_from d =
    if not d.get_database
    then Outcome.done (record {
      status = ReturnStatus.k_aborted;
      out = none;
      events =
          taken (Resource.client ∷ [])
          ++ cleanup (record { client = true; database = false; bucket = false; stream = false });
    })
    else if not d.bucket_new
    then Outcome.done (record {
      status = ReturnStatus.k_aborted;
      out = none;
      events =
          taken (Resource.client ∷ Resource.database ∷ [])
          ++ cleanup (record { client = true; database = true; bucket = false; stream = false });
    })
    else if d.file_not_found
    then Outcome.done
        (record { status = ReturnStatus.k_not_found; out = none; events = opened d.open_stream })
    else if not d.open_stream
    then Outcome.done
        (record { status = ReturnStatus.k_unknown; out = none; events = opened false })
    else (read_all d.allocates d.reads Pointer.null 0 >>= λ (out, size, ret).
        Outcome.done (record { status = ret; out = some (out, size); events = opened true }))
  where
    opened : Bool → List Event
    opened stream =
        taken (Resource.client ∷ Resource.database ∷ Resource.bucket ∷ [])
        ++ ((if stream then Event.takes Resource.stream ∷ [] else [])
            ++ cleanup (record { client = true; database = true; bucket = true; stream = stream }))

-- The first argument is whether `m_cPool` is not null, the last the length of the id.
unfoldable pub get_image_by_id : Bool → Driver → ℕ → Outcome Download
unfolding download_from
get_image_by_id client_pool d size =
    if not (size == 24)
    then Outcome.done (record { status = ReturnStatus.k_invalid_input; out = none; events = [] })
    else if not client_pool
    then Outcome.done (record { status = ReturnStatus.k_uninitialized; out = none; events = [] })
    else if not d.pool_pop
    then Outcome.done (record { status = ReturnStatus.k_uninitialized; out = none; events = [] })
    else download_from d
