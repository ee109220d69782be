-- ===== src/Mongo/Client.antt =====
-- mongo-client.cpp: `init`, `ping` and `destroyMongoClient`.
use limb_worker.Prelude.{
  Bool, true, false, not, List, [], ◌∷◌, ◌++◌, ◌≡◌, ◌↔◌, some, arith, if◌then◌else◌,
}
use limb_worker.Status.{ReturnStatus}
use limb_worker.Service.Process.{is_ok}
use limb_worker.Mongo.Resources.{Resource, Event, held}

-- `m_uri` and `m_cPool`: whether each is not null.
pub record MongoClient : Type 0 where
  pub uri : Bool
  pub client_pool : Bool

-- What the driver answers: whether the URI parses, the pool is made, a client is popped, and the
-- command succeeds.
pub record Driver : Type 0 where
  pub uri_new : Bool
  pub pool_new : Bool
  pub pool_pop : Bool
  pub command : Bool

pub fresh : MongoClient
fresh = record { uri = false; client_pool = false }

-- `destroyMongoClient`, which is the destructor too.
pub destroy_mongo_client : MongoClient → MongoClient × List Event
destroy_mongo_client c = (
  record { uri = false; client_pool = false },
  (if c.client_pool then Event.frees Resource.client_pool ∷ [] else [])
      ++ (if c.uri then Event.frees Resource.uri ∷ [] else []),
)

pub ping : Driver → List Event × ReturnStatus
ping d = if not d.pool_pop then ([], ReturnStatus.k_uninitialized) else (
  Event.takes Resource.client ∷ Event.frees Resource.client ∷ [],
  (if d.command then ReturnStatus.k_ok else ReturnStatus.k_aborted),
)

pub init : Driver → MongoClient → MongoClient × List Event × ReturnStatus
unfolding destroy_mongo_client ping
init d c =
    if not d.uri_new
    then (record c { uri = false }, [], ReturnStatus.k_invalid_input)
    else if not d.pool_new
    then (
      record { uri = true; client_pool = false },
      Event.takes Resource.uri ∷ [],
      ReturnStatus.k_uninitialized,
    )
    else (let (pinged, ret) = ping d in
        let opened : MongoClient = record { uri = true; client_pool = true } in
        let events = Event.takes Resource.uri ∷ Event.takes Resource.client_pool ∷ pinged in
        if is_ok ret
        then (opened, events, ReturnStatus.k_ok)
        else (let (closed, freed) = destroy_mongo_client opened in
            (closed, events ++ freed, ReturnStatus.k_aborted)))

-- `init` of a new client returns kOk exactly if the URI parses, the pool is made, and the ping gets a
-- client and succeeds. Whatever it returns, the destructor after it leaves nothing held, and nothing
-- is given back twice.
pub init_lem :
    (d : Driver)
    → let (c, events, ret) = init d fresh in
      ((ret ≡ ReturnStatus.k_ok)
        ↔ ((d.uri_new ≡ true) × (d.pool_new ≡ true) × (d.pool_pop ≡ true) × (d.command ≡ true)))
      × (held [] (events ++ (destroy_mongo_client c).1) ≡ some [])
unfolding init fresh
init_lem d = ground arith
