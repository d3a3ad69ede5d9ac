-- ===== src/Config/Types.antt =====
-- internal/config/config.go: the records of settings that are validated, that the environment
-- overrides, or that the start of a service reads, less the other fields (passwords, queue names, the
-- number of the Redis database).
use yeti.Base.{ℕ, String, Bool, List}
use yeti.Base.Int.{ℤ}
use yeti.Broker.Process.{RetryConfig}

-- What the checks use of Go: `strings.ToLower`, `strings.HasPrefix` and `%d`.
pub record GoLib : Type 0 where
  pub to_lower : String → String
  -- `has_prefix s prefix`.
  pub has_prefix : String → String → Bool
  pub show_int : ℤ → String

pub record ServerConfig : Type 0 where
  pub port : ℤ
  pub read_timeout_seconds : ℤ
  pub write_timeout_seconds : ℤ

pub record KafkaConfig : Type 0 where
  pub brokers : List String
  pub group_id : String
  pub input_topic : String
  pub output_topic : String
  pub config_update_topic : String
  pub dlq_topic : String
  pub retry : RetryConfig

pub record RabbitMqConfig : Type 0 where
  pub host : String
  pub port : ℤ

pub record BrokerConfig : Type 0 where
  pub type_name : String
  pub rabbitmq : RabbitMqConfig
  pub kafka : KafkaConfig

pub record PostgresConfig : Type 0 where
  pub host : String
  pub port : ℤ
  pub user : String
  pub db_name : String
  pub ssl_mode : String

pub record RedisConfig : Type 0 where
  pub host : String
  pub port : ℤ
  pub ttl_seconds : ℤ

pub record MongoDbConfig : Type 0 where
  pub uri : String
  pub database : String

pub record DatabaseConfig : Type 0 where
  pub postgres : PostgresConfig
  pub redis : RedisConfig
  pub mongodb : MongoDbConfig

pub record DeduplicationConfig : Type 0 where
  pub hash_algorithm : String
  pub ttl_seconds : ℤ
  pub on_redis_error : String

pub record OtlpConfig : Type 0 where
  pub endpoint : String
  pub insecure : Bool

-- `param` is a float64 by its bit pattern.
pub record SamplerConfig : Type 0 where
  pub type_name : String
  pub param : ℕ

pub record TracingConfig : Type 0 where
  pub enabled : Bool
  pub service_name : String
  pub otlp : OtlpConfig
  pub sampler : SamplerConfig

pub record Config : Type 0 where
  pub server : ServerConfig
  pub database : DatabaseConfig
  pub broker : BrokerConfig
  pub deduplication : DeduplicationConfig
  pub tracing : TracingConfig
