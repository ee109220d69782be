-- ===== src/Config.antt =====
-- src/internal/app-config/: `ConfigFactory` and `JsonParser`, and the records of include/app-config.h.
pub mod Fields
mod Tests
use Prim.Native.String.{String}
use limb_worker.Prelude.{
  ℕ, ◌-◌, ◌^◌, Bool, true, false, ◌&&◌, Option, none, some, List, [], ◌∷◌, ◌==◌, ltb, str_eq,
  if◌then◌else◌, Bytes, Outcome,
}
use limb_worker.Status.{ReturnStatus}
use limb_worker.Service.Process.{is_ok}

pub record MongoConfig : Type 0 where
  pub uri : String
  pub db_name : String

pub record AmqpConfig : Type 0 where
  pub user : String
  pub passwd : String
  pub host : String
  pub port : ℕ
  pub heartbeat : ℕ
  pub prefetch_count : ℕ

-- `modules` is read by nothing.
pub record AppConfig : Type 0 where
  pub db_config : MongoConfig
  pub transport_config : AmqpConfig
  pub custom_scan_directories : List String

-- An element of a simdjson document, by what the parser reads of it: `element[key].get_string()` and
-- `element[key].get_uint64()`, `none` for an error.
pub record Element : Type 0 where
  pub get_string : String → Option String
  pub get_uint64 : String → Option ℕ

-- A document: whether `doc["application"]` is there, and `application["database"]` and
-- `application["transport"]` where they are.
pub record Document : Type 0 where
  pub has_application : Bool
  pub database : Option Element
  pub transport : Option Element

-- The files and simdjson: `padded_string::load`, and `parse`, `none` where its conversion to an
-- element throws; whether a path is a regular file; what follows a prefix in an argument.
pub record Environment : Type 0 where
  pub load : String → Option Bytes
  pub parse : Bytes → Option Document
  pub is_valid_file : String → Bool
  pub after_prefix : String → String → Option String

-- Each step that fails keeps what was filled before it.
pub try_fill_mongo_config : Element → MongoConfig → MongoConfig × ReturnStatus
try_fill_mongo_config database conf = elim (database.get_string "type") [
  | none ↦ (conf, ReturnStatus.k_incomplete)
  | some kind ↦
      if str_eq kind "mongo"
      then (elim (database.get_string "uri") [
        | none ↦ (conf, ReturnStatus.k_incomplete)
        | some uri ↦ elim (database.get_string "dbName") [
          | none ↦ (record conf { uri = uri }, ReturnStatus.k_incomplete)
          | some db_name ↦ (record { uri = uri; db_name = db_name }, ReturnStatus.k_ok)
        ]
      ])
      else (conf, ReturnStatus.k_incomplete)
]

pub try_defaults_amqp_transport : AmqpConfig → AmqpConfig
try_defaults_amqp_transport conf = record conf {
  heartbeat = if conf.heartbeat == 0 then 60 else conf.heartbeat;
  prefetch_count = if conf.prefetch_count == 0 then 20 else conf.prefetch_count;
}

fill_port : Element → AmqpConfig → AmqpConfig × ReturnStatus
fill_port transport conf = elim (transport.get_uint64 "port") [
  | none ↦ (conf, ReturnStatus.k_incomplete)
  | some port ↦
      if ltb (2 ^ 16 - 1) port
      then (conf, ReturnStatus.k_incomplete)
      else (record conf { port = port }, ReturnStatus.k_ok)
]

fill_host : Element → AmqpConfig → AmqpConfig × ReturnStatus
unfolding fill_port
fill_host transport conf = elim (transport.get_string "host") [
  | none ↦ (conf, ReturnStatus.k_incomplete)
  | some host ↦ fill_port transport (record conf { host = host })
]

fill_passwd : Element → AmqpConfig → AmqpConfig × ReturnStatus
unfolding fill_host
fill_passwd transport conf = elim (transport.get_string "passwd") [
  | none ↦ (conf, ReturnStatus.k_incomplete)
  | some passwd ↦ fill_host transport (record conf { passwd = passwd })
]

pub try_fill_amqp_transport : Element → AmqpConfig → AmqpConfig × ReturnStatus
unfolding fill_passwd
try_fill_amqp_transport transport conf = elim (transport.get_string "type") [
  | none ↦ (conf, ReturnStatus.k_incomplete)
  | some kind ↦
      if str_eq kind "amqp"
      then (elim (transport.get_string "user") [
        | none ↦ (conf, ReturnStatus.k_incomplete)
        | some user ↦ fill_passwd transport (record conf { user = user })
      ])
      else (conf, ReturnStatus.k_incomplete)
]

fill_transport : Option Element → AppConfig → AppConfig × ReturnStatus
unfolding try_fill_amqp_transport try_defaults_amqp_transport
fill_transport none conf = (conf, ReturnStatus.k_incomplete)
fill_transport (some transport) conf =
    let defaults = try_defaults_amqp_transport conf.transport_config in
    let (filled, ret) = try_fill_amqp_transport transport defaults in
    (record conf { transport_config = filled }, ret)

pub parse_document : Document → AppConfig → AppConfig × ReturnStatus
unfolding try_fill_mongo_config fill_transport
parse_document doc conf =
    if doc.has_application
    then (elim doc.database [
      | none ↦ (conf, ReturnStatus.k_incomplete)
      | some database ↦
          let (filled, ret) = try_fill_mongo_config database conf.db_config in
          let conf' = record conf { db_config = filled } in
          if is_ok ret then fill_transport doc.transport conf' else (conf', ret)
    ])
    else (conf, ReturnStatus.k_incomplete)

-- `JsonParser`, by its `m_customFilepath`.
abbrev pub default_config_path : String
default_config_path = "./config.json"

pub get_config : Environment → String → AppConfig → Outcome (AppConfig × ReturnStatus)
unfolding parse_document
get_config env custom_filepath conf =
    let path = if str_eq custom_filepath "" then default_config_path else custom_filepath in
    elim (env.load path) [
      | none ↦ Outcome.done (conf, ReturnStatus.k_incomplete)
      | some json ↦ elim (env.parse json) [
        | none ↦ Outcome.throws
        | some doc ↦ Outcome.done (parse_document doc conf)
      ]
    ]

pub get_json_filepath : Environment → String → String
get_json_filepath env arg = elim (env.after_prefix "--jsonFilepath=" arg) [
  | none ↦ ""
  | some json_filepath ↦ if env.is_valid_file json_filepath then json_filepath else ""
]

-- The loop of `ConfigFactory`, which gives the path to the parser.
pub config_filepath : Environment → List String → String
unfolding get_json_filepath
config_filepath env [] = ""
config_filepath env (arg ∷ args) =
    let rest = config_filepath env args in
    let json_filepath = get_json_filepath env arg in
    if str_eq json_filepath "" then rest else json_filepath
