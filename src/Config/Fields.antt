-- ===== src/Config/Fields.antt =====
-- json-parser.cpp: which documents make a configuration, and which one.

use limb_worker.Prelude.{
  ◌^◌, ◌<◌, ◌≡◌, ◌↔◌, inl, inr, true, some, arith, ◌==◌, str_eq, str_eq_iff, if◌then◌else◌,
  Option-cases, Bool-cases,
}
use limb_worker.Status.{ReturnStatus}
use limb_worker.Config.{
  AppConfig, MongoConfig, AmqpConfig, Element, Document, parse_document, try_fill_mongo_config,
  try_fill_amqp_transport, try_defaults_amqp_transport,
}

-- The fields that a database section, and a transport section, must have.
pub record MongoFields (e : Element) (conf : MongoConfig) : Type 0 where
  pub kind : e.get_string "type" ≡ some "mongo"
  pub uri_field : e.get_string "uri" ≡ some conf.uri
  pub db_name_field : e.get_string "dbName" ≡ some conf.db_name

pub record AmqpFields (e : Element) (conf : AmqpConfig) : Type 0 where
  pub kind : e.get_string "type" ≡ some "amqp"
  pub user_field : e.get_string "user" ≡ some conf.user
  pub passwd_field : e.get_string "passwd" ≡ some conf.passwd
  pub host_field : e.get_string "host" ≡ some conf.host
  pub port_field : e.get_uint64 "port" ≡ some conf.port
  pub port_small : conf.port < 2 ^ 16

mongo-MongoFields :
    (e : Element) (before conf : MongoConfig)
    → try_fill_mongo_config e before ≡ (conf, ReturnStatus.k_ok)
    → MongoFields e conf
unfolding try_fill_mongo_config
mongo-MongoFields e before conf h = elim (Option-cases (e.get_string "type")) [
  | inl n ↦ absurd (ground arith)
  | inr (kind, k) ↦ elim (Bool-cases (str_eq kind "mongo")) [
    | inr wrong ↦ absurd (ground arith)
    | inl right ↦
        let p = (str_eq_iff kind "mongo").0 right in
        record { kind = cc; uri_field = ground arith; db_name_field = ground arith }
  ]
]

MongoFields-mongo :
    (e : Element) (before conf : MongoConfig)
    → MongoFields e conf
    → try_fill_mongo_config e before ≡ (conf, ReturnStatus.k_ok)
unfolding try_fill_mongo_config
MongoFields-mongo e before conf f =
    ground (arith, f.kind, f.uri_field, f.db_name_field, str_eq_iff "mongo" "mongo")

-- A transport section that is filled has its fields, and the two numbers that are not read stay.
abbrev AmqpFilled : Element → AmqpConfig → AmqpConfig → Type 0
AmqpFilled e before conf =
    AmqpFields e conf
    × (conf.heartbeat ≡ before.heartbeat)
    × (conf.prefetch_count ≡ before.prefetch_count)

amqp-AmqpFilled :
    (e : Element) (before conf : AmqpConfig)
    → try_fill_amqp_transport e before ≡ (conf, ReturnStatus.k_ok)
    → AmqpFilled e before conf
unfolding try_fill_amqp_transport
amqp-AmqpFilled e before conf h = elim (Option-cases (e.get_string "type")) [
  | inl n ↦ absurd (ground arith)
  | inr (kind, k) ↦ elim (Bool-cases (str_eq kind "amqp")) [
    | inr wrong ↦ absurd (ground arith)
    | inl right ↦
        let p = (str_eq_iff kind "amqp").0 right in
        (
          record {
            kind = cc;
            user_field = ground arith;
            passwd_field = ground arith;
            host_field = ground arith;
            port_field = ground arith;
            port_small = ground arith;
          },
          ground arith,
          ground arith,
        )
  ]
]

AmqpFilled-amqp :
    (e : Element) (before conf : AmqpConfig)
    → AmqpFilled e before conf
    → try_fill_amqp_transport e before ≡ (conf, ReturnStatus.k_ok)
unfolding try_fill_amqp_transport
AmqpFilled-amqp e before conf (f, hb, pc) = ground (
  arith,
  f.kind,
  f.user_field,
  f.passwd_field,
  f.host_field,
  f.port_field,
  f.port_small,
  str_eq_iff "amqp" "amqp",
)

pub record Filled (doc : Document) (before conf : AppConfig) : Type 0 where
  pub database : Element
  pub transport : Element
  pub application_there : doc.has_application ≡ true
  pub database_there : doc.database ≡ some database
  pub transport_there : doc.transport ≡ some transport
  pub mongo : MongoFields database conf.db_config
  pub amqp : AmqpFields transport conf.transport_config
  pub heartbeat_default :
      conf.transport_config.heartbeat
      ≡ (if before.transport_config.heartbeat == 0 then 60 else before.transport_config.heartbeat)
  pub prefetch_default : conf.transport_config.prefetch_count ≡ (
      if before.transport_config.prefetch_count == 0
      then 20
      else before.transport_config.prefetch_count)
  pub directories_kept : conf.custom_scan_directories ≡ before.custom_scan_directories

parse_document-Filled :
    (doc : Document) (before conf : AppConfig)
    → parse_document doc before ≡ (conf, ReturnStatus.k_ok)
    → Filled doc before conf
unfolding parse_document try_defaults_amqp_transport
parse_document-Filled doc before conf h = elim (Option-cases doc.database) [
  | inl n ↦ absurd (ground arith)
  | inr (d, there) ↦ elim (Option-cases doc.transport) [
    | inl n ↦ absurd (ground arith)
    | inr (t, there') ↦
        let defaults = try_defaults_amqp_transport before.transport_config in
        let filled : try_fill_mongo_config d before.db_config
            ≡ (conf.db_config, ReturnStatus.k_ok) =
          ground arith in
        let filled' : try_fill_amqp_transport t defaults
            ≡ (conf.transport_config, ReturnStatus.k_ok) =
          ground arith in
        let (fields, hb, pc) = amqp-AmqpFilled t defaults conf.transport_config filled' in
        record {
          database = d;
          transport = t;
          application_there = ground arith;
          database_there = there;
          transport_there = there';
          mongo = mongo-MongoFields d before.db_config conf.db_config filled;
          amqp = fields;
          heartbeat_default = hb;
          prefetch_default = pc;
          directories_kept = ground arith;
        }
  ]
]

Filled-parse_document :
    (doc : Document) (before conf : AppConfig)
    → Filled doc before conf
    → parse_document doc before ≡ (conf, ReturnStatus.k_ok)
unfolding parse_document try_defaults_amqp_transport
Filled-parse_document doc before conf f =
    let d = MongoFields-mongo f.database before.db_config conf.db_config f.mongo in
    let t =
      AmqpFilled-amqp f.transport (try_defaults_amqp_transport before.transport_config)
        conf.transport_config (f.amqp, f.heartbeat_default, f.prefetch_default) in
    ground
      (arith, d, t, f.application_there, f.database_there, f.transport_there, f.directories_kept)

-- A document is accepted exactly if it has an `application` with a `database` of type `mongo`, its
-- `uri` and `dbName`, and a `transport` of type `amqp`, its `user`, `passwd` and `host`, and a `port`
-- below 2 ^ 16; the configuration then has these values, 60 and 20 for a heartbeat and a prefetch count
-- that were 0, and all else as it was.
pub parse_document_iff :
    (doc : Document) (before conf : AppConfig)
    → (parse_document doc before ≡ (conf, ReturnStatus.k_ok)) ↔ Filled doc before conf
parse_document_iff doc before conf =
    (parse_document-Filled doc before conf, Filled-parse_document doc before conf)
