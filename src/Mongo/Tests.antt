-- ===== src/Mongo/Tests.antt =====
-- A connection, a download of two chunks and an upload of a small file.
use limb_worker.Prelude.{
  joined, ◌≡◌, ◌↔◌, refl, true, false, ◌&&◌, some, [], ◌∷◌, arith, map, if◌then◌else◌, length,
  Bytes, List, Outcome,
}
use limb_worker.Status.{ReturnStatus}
use limb_worker.Mongo.Resources.{Resource, held}
use limb_worker.Mongo.Client
use limb_worker.Mongo.Client.{init, fresh, destroy_mongo_client, init_lem, ping}
use limb_worker.Mongo.Download
use limb_worker.Mongo.Download.{Read, Download, get_image_by_id}
use limb_worker.Mongo.Download.Whole.{
  file_events, pointer_to, get_image_by_id-whole, get_image_by_id-held,
}
use limb_worker.Mongo.Upload
use limb_worker.Mongo.Upload.{update_image_by_id, chunks}
use limb_worker.Mongo.Upload.Chunks.{written, removed, update_image_by_id_lem}

abbrev refusing : Client.Driver
refusing = record { uri_new = true; pool_new = true; pool_pop = true; command = false }

abbrev pieces : List Bytes
pieces = (1 ∷ 2 ∷ []) ∷ (3 ∷ []) ∷ []

abbrev answering : Download.Driver
answering = record {
  pool_pop = true;
  get_database = true;
  bucket_new = true;
  file_not_found = false;
  open_stream = true;
  reads = map Read.chunk pieces;
  allocates = λ n. true;
}

abbrev loaded : Download
loaded = record {
  status = ReturnStatus.k_ok;
  out = some (pointer_to pieces, length (joined pieces));
  events = file_events;
}

get_image_by_id-whole_example : get_image_by_id true answering 24 ≡ Outcome.done loaded
get_image_by_id-whole_example =
    get_image_by_id-whole answering pieces refl refl refl refl refl refl (λ n. refl) (omega arith)

get_image_by_id-whole_loaded : get_image_by_id true answering 24 ≡ Outcome.done loaded
unfolding get_image_by_id
get_image_by_id-whole_loaded = refl

get_image_by_id-held_example : held [] loaded.events ≡ some []
get_image_by_id-held_example =
    get_image_by_id-held true answering 24 {r = loaded} get_image_by_id-whole_loaded

abbrev storing : Upload.Driver
storing = record {
  pool_pop = true;
  get_database = true;
  bucket_new = true;
  get_gridfs = true;
  file_not_found = false;
  find_file = true;
  remove_file = true;
  open_stream = true;
}

small_chunks : chunks (1 ∷ 2 ∷ 3 ∷ []) ≡ (1 ∷ 2 ∷ 3 ∷ []) ∷ []
unfolding chunks
small_chunks = refl

update_image_by_id_example :
    let (events, ret) = update_image_by_id true storing 24 (1 ∷ 2 ∷ 3 ∷ []) in
    let old_removed = removed true storing 24 in
    ((ret ≡ ReturnStatus.k_ok) ↔ ((old_removed && storing.open_stream) ≡ true))
    × (written events ≡ (if old_removed && storing.open_stream then 1 ∷ 2 ∷ 3 ∷ [] else []))
    × (held [] events ≡ some (if old_removed then Resource.upload_source ∷ [] else []))
update_image_by_id_example = update_image_by_id_lem true storing 24 (1 ∷ 2 ∷ 3 ∷ []) (omega arith)
