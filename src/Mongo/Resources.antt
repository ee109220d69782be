-- ===== src/Mongo/Resources.antt =====
-- mongo-client.cpp: what the client takes from the driver and gives back.
use limb_worker.Prelude.{
  ℕ, Option, none, some, List, [], ◌∷◌, ◌++◌, ◌==◌, ◌≡◌, refl, if◌then◌else◌, Bytes, map,
}

-- `upload_source` is the stream that `mongoc_stream_gridfs_new` gives.
pub data Resource : Type 0 where
  uri client_pool client database bucket gridfs file stream upload_source : Resource

abbrev pub number : Resource → ℕ
number Resource.uri = 0
number Resource.client_pool = 1
number Resource.client = 2
number Resource.database = 3
number Resource.bucket = 4
number Resource.gridfs = 5
number Resource.file = 6
number Resource.stream = 7
number Resource.upload_source = 8

-- The calls of the driver that take a handle, that give it back (destroy it, or push the client), that
-- remove the stored file, and that write to the upload stream.
pub data Event : Type 0 where
  takes frees : Resource → Event
  removes_file : Event
  writes : Bytes → Event

abbrev pub drop_one : Resource → List Resource → Option (List Resource)
drop_one r [] = none
drop_one r (x ∷ xs) =
    if number x == number r
    then some xs
    else (elim (drop_one r xs) [ none ↦ none | some ys ↦ some (x ∷ ys) ])

-- What is held after the events: `none` where a handle is given back that is not held.
abbrev pub held : List Resource → List Event → Option (List Resource)
held rs [] = some rs
held rs (Event.takes r ∷ es) = held (r ∷ rs) es
held rs (Event.frees r ∷ es) = elim (drop_one r rs) [ none ↦ none | some rest ↦ held rest es ]
held rs (Event.removes_file ∷ es) = held rs es
held rs (Event.writes bytes ∷ es) = held rs es

pub held-writes :
    (rs : List Resource) (chunks : List Bytes) (es : List Event)
    → held rs (map Event.writes chunks ++ es) ≡ held rs es
held-writes rs [] es = refl
held-writes rs (c ∷ cs) es = held-writes rs cs es
