-- ===== src/Config/Validator.antt =====
-- internal/config/validator.go.
use yeti.Base.{
  ℕ, suc, String, Bool, true, false, ◌&&◌, ◌||◌, not, Option, none, some, List, [], ◌∷◌, ◌==◌, ◌<>◌,
  if◌then◌else◌,
}
use yeti.Base.Int.{ℤ, pos, ltz, lez}
use yeti.Base.Lists.{is_empty, one_of}
use yeti.Base.{leb, nat_eq}
use yeti.Broker.Process.{RetryConfig}
use yeti.Config.Types.{
  GoLib, ServerConfig, KafkaConfig, RabbitMqConfig, BrokerConfig, PostgresConfig, RedisConfig,
  MongoDbConfig, DatabaseConfig, DeduplicationConfig, Config,
}

pub record ValidationError : Type 0 where
  pub field : String
  pub message : String

-- `if bad { return &ValidationError{…} }` before the rest of a function.
abbrev pub refuse : Bool → ValidationError → Option ValidationError → Option ValidationError
refuse bad e rest = if bad then some e else rest

abbrev pub invalid : String → String → ValidationError
invalid field message = record { field = field; message = message }

abbrev pub bad_port : ℤ → Bool
bad_port port = ltz port (pos 1) || ltz (pos 65535) port

unfoldable pub validate_server : GoLib → ServerConfig → Option ValidationError
validate_server lib cfg =
    refuse (bad_port cfg.port)
      (invalid "server.port" ("port must be between 1 and 65535, got " <> lib.show_int cfg.port))
      (refuse (lez cfg.read_timeout_seconds (pos 0))
        (invalid "server.read_timeout_seconds" "read timeout must be positive")
        (refuse (lez cfg.write_timeout_seconds (pos 0))
          (invalid "server.write_timeout_seconds" "write timeout must be positive") none))

-- `x <= 0` for a float64 by its bits: a zero, or a negative number down to minus infinity.
abbrev pub not_positive_float : ℕ → Bool
not_positive_float bits =
    nat_eq bits 0 || (leb 0x8000000000000000 bits && leb bits 0xFFF0000000000000)

-- The loop over the brokers, from index `i` on, before the rest of `validateKafka`.
unfoldable pub validate_brokers :
    GoLib → ℕ → List String → Option ValidationError → Option ValidationError
validate_brokers lib i [] rest = rest
validate_brokers lib i (broker ∷ brokers) rest =
    let later = validate_brokers lib (suc i) brokers rest in
    if broker == ""
    then some (
        invalid ("broker.kafka.brokers[" <> lib.show_int (pos i) <> "]")
          "broker address cannot be empty")
    else later

unfoldable pub validate_retry : GoLib → RetryConfig → Option ValidationError
validate_retry lib r =
    refuse (ltz r.max_attempts (pos 0))
      (invalid "broker.kafka.retry.max_attempts" "max_attempts must be non-negative")
      (refuse (ltz r.initial_interval (pos 0))
        (invalid "broker.kafka.retry.initial_interval" "initial_interval must be non-negative")
        (refuse (ltz r.max_interval (pos 0))
          (invalid "broker.kafka.retry.max_interval" "max_interval must be non-negative")
          (refuse
            (ltz (pos 0) r.max_interval
              && (ltz (pos 0) r.initial_interval && ltz r.max_interval r.initial_interval))
            (invalid "broker.kafka.retry.max_interval"
              "max_interval must be greater than or equal to initial_interval")
            (refuse (not_positive_float r.multiplier)
              (invalid "broker.kafka.retry.multiplier" "multiplier must be positive") none))))

unfoldable pub validate_kafka : GoLib → KafkaConfig → Option ValidationError
validate_kafka lib cfg =
    refuse (is_empty cfg.brokers)
      (invalid "broker.kafka.brokers" "at least one Kafka broker is required")
      (validate_brokers lib 0 cfg.brokers (
        refuse (cfg.group_id == "")
          (invalid "broker.kafka.group_id" "Kafka consumer group ID is required")
          (validate_retry lib cfg.retry)))

unfoldable pub validate_rabbitmq : GoLib → RabbitMqConfig → Option ValidationError
validate_rabbitmq lib cfg =
    refuse (cfg.host == "") (invalid "broker.rabbitmq.host" "RabbitMQ host is required") (
      refuse (bad_port cfg.port)
        (invalid "broker.rabbitmq.port"
          ("port must be between 1 and 65535, got " <> lib.show_int cfg.port))
        none)

unfoldable pub validate_broker : GoLib → BrokerConfig → Option ValidationError
validate_broker lib cfg =
    refuse (cfg.type_name == "") (invalid "broker.type" "broker type is required") (
      if cfg.type_name == "kafka"
      then validate_kafka lib cfg.kafka
      else if cfg.type_name == "rabbitmq"
      then validate_rabbitmq lib cfg.rabbitmq
      else some (
          invalid "broker.type"
            ("unknown broker type: " <> cfg.type_name <> " (supported: kafka, rabbitmq)")))

unfoldable pub validate_postgres : GoLib → PostgresConfig → Option ValidationError
validate_postgres lib cfg =
    refuse (cfg.host == "") (invalid "database.postgres.host" "PostgreSQL host is required") (
      refuse (bad_port cfg.port)
        (invalid "database.postgres.port"
          ("port must be between 1 and 65535, got " <> lib.show_int cfg.port))
        (refuse (cfg.user == "") (invalid "database.postgres.user" "PostgreSQL user is required") (
          refuse (cfg.db_name == "")
            (invalid "database.postgres.dbname" "PostgreSQL database name is required")
            (refuse
              (not (cfg.ssl_mode == "")
                && not (
                    one_of (lib.to_lower cfg.ssl_mode) (
                      "disable" ∷ "allow" ∷ "prefer" ∷ "require" ∷ "verify-ca" ∷ "verify-full"
                      ∷ [])))
              (invalid "database.postgres.sslmode" (
                "invalid SSL mode: " <> cfg.ssl_mode
                <> " (valid: disable, allow, prefer, require, verify-ca, verify-full)"))
              none))))

unfoldable pub validate_redis : GoLib → RedisConfig → Option ValidationError
validate_redis lib cfg =
    refuse (cfg.host == "") (invalid "database.redis.host" "Redis host is required") (
      refuse (bad_port cfg.port)
        (invalid "database.redis.port"
          ("port must be between 1 and 65535, got " <> lib.show_int cfg.port))
        (refuse (ltz cfg.ttl_seconds (pos 0))
          (invalid "database.redis.ttl_seconds" "TTL must be non-negative") none))

unfoldable pub validate_mongodb : GoLib → MongoDbConfig → Option ValidationError
validate_mongodb lib cfg =
    refuse (cfg.uri == "") (invalid "database.mongodb.uri" "MongoDB URI is required") (
      refuse
        (not (lib.has_prefix cfg.uri "mongodb://") && not (lib.has_prefix cfg.uri "mongodb+srv://"))
        (invalid "database.mongodb.uri" "MongoDB URI must start with mongodb:// or mongodb+srv://")
        (refuse (cfg.database == "")
          (invalid "database.mongodb.database" "MongoDB database name is required") none))

-- `if configured { if err := validate(); err != nil { return err } }` before the rest.
abbrev pub when_configured :
    Bool → Option ValidationError → Option ValidationError → Option ValidationError
when_configured false found rest = rest
when_configured true none rest = rest
when_configured true (some e) rest = some e

unfoldable pub validate_database : GoLib → DatabaseConfig → Option ValidationError
validate_database lib cfg =
    when_configured (not (cfg.postgres.host == "") || ltz (pos 0) cfg.postgres.port)
      (validate_postgres lib cfg.postgres)
      (when_configured (not (cfg.redis.host == "") || ltz (pos 0) cfg.redis.port)
        (validate_redis lib cfg.redis)
        (when_configured (not (cfg.mongodb.uri == "")) (validate_mongodb lib cfg.mongodb) none))

unfoldable pub validate_deduplication : GoLib → DeduplicationConfig → Option ValidationError
validate_deduplication lib cfg =
    refuse
      (not (cfg.hash_algorithm == "")
        && not (one_of (lib.to_lower cfg.hash_algorithm) ("md5" ∷ "sha256" ∷ "sha1" ∷ [])))
      (invalid "deduplication.hash_algorithm"
        ("invalid hash algorithm: " <> cfg.hash_algorithm <> " (valid: md5, sha256, sha1)"))
      (refuse (ltz cfg.ttl_seconds (pos 0))
        (invalid "deduplication.ttl_seconds" "TTL must be non-negative")
        (refuse
          (not (cfg.on_redis_error == "")
            && not (one_of (lib.to_lower cfg.on_redis_error) ("allow" ∷ "reject" ∷ "fail" ∷ [])))
          (invalid "deduplication.on_redis_error" (
            "invalid on_redis_error value: " <> cfg.on_redis_error
            <> " (valid: allow, reject, fail)"))
          none))

abbrev pub collect : Option ValidationError → List ValidationError → List ValidationError
collect none errors = errors
collect (some e) errors = e ∷ errors

-- The errors that `ValidateStatic` prints; it answers without an error when there is none.
unfoldable pub validate_static : GoLib → Config → List ValidationError
validate_static lib cfg = collect (validate_server lib cfg.server) (
    collect (validate_broker lib cfg.broker) (
      collect (validate_database lib cfg.database)
        (collect (validate_deduplication lib cfg.deduplication) [])))
