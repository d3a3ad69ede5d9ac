-- ===== src/Tests/Settings.antt =====
-- The settings and the requests that are validated.
use yeti.Base.{◌≡◌, ◌↔◌, refl, none, [], ◌∷◌, ◌==◌, false, if◌then◌else◌}
use yeti.Base.Int.{pos}
use yeti.Errors.Chain.{plain}
use yeti.Errors.Result.{ok}
use yeti.Config.Validator.{
  validate_server, validate_broker, validate_kafka, validate_brokers, validate_retry,
  validate_database, validate_redis, validate_deduplication,
}
use yeti.Config.Loader.{
  Viper, Strings, with_brokers, set_brokers, override_brokers, override_endpoint,
  apply_env_overrides, validated, load_config,
}
use yeti.Config.Loading.{Loads, load_config_iff}
use yeti.Broker.Process.{RetryConfig}
use yeti.Config.Types.{GoLib, Config}
use yeti.Config.Validator.{validate_static}

-- Texts that are in lower case, and a URI's scheme as the only prefix.
abbrev go : GoLib
go = record { to_lower = λ s. s; has_prefix = λ s p. s == p; show_int = λ n. "n" }

abbrev retry : RetryConfig
retry = record {
  max_attempts = pos 3;
  initial_interval = pos 1;
  max_interval = pos 2;
  multiplier = 0x4000000000000000;
  max_elapsed_time = pos 0;
}

abbrev pub settings : Config
settings = record {
  server = record { port = pos 8080; read_timeout_seconds = pos 5; write_timeout_seconds = pos 5 };
  broker = record {
    type_name = "kafka";
    rabbitmq = record { host = ""; port = pos 0 };
    kafka = record {
      brokers = "localhost:9092" ∷ [];
      group_id = "yeti";
      input_topic = "";
      output_topic = "";
      config_update_topic = "config_updates";
      dlq_topic = "";
      retry = retry;
    };
  };
  database = record {
    postgres = record { host = ""; port = pos 0; user = ""; db_name = ""; ssl_mode = "" };
    redis = record { host = "localhost"; port = pos 6379; ttl_seconds = pos 60 };
    mongodb = record { uri = ""; database = "" };
  };
  deduplication = record { hash_algorithm = "sha1"; ttl_seconds = pos 60; on_redis_error = "" };
  tracing = record {
    enabled = false;
    service_name = "";
    otlp = record { endpoint = ""; insecure = false };
    sampler = record { type_name = ""; param = 0 };
  };
}

-- An environment that names the brokers by a text which the functions on strings split in two.
abbrev viper : Viper
viper = record {
  read_in_config = λ file. none;
  unmarshal = λ file. ok settings;
  get_string = λ name. if name == "BROKER_KAFKA_BROKERS" then "one:9092, two:9092" else "";
}

abbrev strings : Strings
strings = record {
  split = λ s separator. "one:9092" ∷ " two:9092" ∷ [];
  trim_space = λ s. if s == " two:9092" then "two:9092" else s;
  errors_of = λ errors. plain "invalid";
}

abbrev overridden : Config
overridden = with_brokers ("one:9092" ∷ "two:9092" ∷ []) settings

loaded : load_config go viper strings "config.yaml" ≡ ok overridden
unfolding load_config validated validate_static validate_server validate_broker validate_kafka
    validate_brokers validate_retry validate_database validate_redis validate_deduplication
    apply_env_overrides override_brokers override_endpoint set_brokers
loaded = refl

load_config_iff_example :
    (load_config go viper strings "config.yaml" ≡ ok overridden)
    ↔ ((raw : Config) × Loads go viper strings "config.yaml" raw overridden)
load_config_iff_example = load_config_iff go viper strings "config.yaml" overridden
