-- ===== src/Config/Tests.antt =====
-- A configuration file, and the choice of its path.
use limb_worker.Prelude.{◌≡◌, ◌↔◌, refl, true, some, none, [], ◌∷◌, str_eq, if◌then◌else◌, Outcome}
use limb_worker.Status.{ReturnStatus}
use limb_worker.Config.{
  AppConfig, Element, Document, Environment, parse_document, get_config, config_filepath,
  get_json_filepath,
}
use limb_worker.Config.Fields.{Filled, parse_document_iff}

abbrev database : Element
database = record {
  get_string = λ key.
      if str_eq key "type"
      then some "mongo"
      else if str_eq key "uri"
      then some "mongodb://db"
      else if str_eq key "dbName"
      then some "limb"
      else none;
  get_uint64 = λ key. none;
}

abbrev transport : Element
transport = record {
  get_string = λ key.
      if str_eq key "type"
      then some "amqp"
      else if str_eq key "user"
      then some "guest"
      else if str_eq key "passwd"
      then some "secret"
      else if str_eq key "host"
      then some "127.0.0.1"
      else none;
  get_uint64 = λ key. if str_eq key "port" then some 5672 else none;
}

abbrev document : Document
document = record { has_application = true; database = some database; transport = some transport }

abbrev blank : AppConfig
blank = record {
  db_config = record { uri = ""; db_name = "" };
  transport_config = record {
    user = "";
    passwd = "";
    host = "";
    port = 0;
    heartbeat = 0;
    prefetch_count = 0;
  };
  custom_scan_directories = [];
}

abbrev filled : AppConfig
filled = record {
  db_config = record { uri = "mongodb://db"; db_name = "limb" };
  transport_config = record {
    user = "guest";
    passwd = "secret";
    host = "127.0.0.1";
    port = 5672;
    heartbeat = 60;
    prefetch_count = 20;
  };
  custom_scan_directories = [];
}

abbrev env : Environment
env = record {
  load = λ path. if str_eq path "./config.json" then some (123 ∷ []) else none;
  parse = λ json. some document;
  is_valid_file = λ path. str_eq path "a.json";
  after_prefix = λ prefix arg. if str_eq arg "--jsonFilepath=a.json" then some "a.json" else none;
}

loaded :
    (get_config env "" blank ≡ Outcome.done (filled, ReturnStatus.k_ok))
    × (get_config env "a.json" blank ≡ Outcome.done (blank, ReturnStatus.k_incomplete))
    × (config_filepath env ("worker" ∷ "--jsonFilepath=a.json" ∷ []) ≡ "a.json")
    × (config_filepath env ("worker" ∷ []) ≡ "")
unfolding get_config config_filepath get_json_filepath parse_document
loaded = (refl, refl, refl, refl)

parse_document_example :
    (parse_document document blank ≡ (filled, ReturnStatus.k_ok)) ↔ Filled document blank filled
parse_document_example = parse_document_iff document blank filled
