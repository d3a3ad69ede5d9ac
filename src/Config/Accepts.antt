-- ===== src/Config/Accepts.antt =====
-- What a configuration that passes the validation has.
use yeti.Base.{
  ℕ, suc, String, ◌≡◌, ◌≢◌, ◌↔◌, ◌⊎◌, true, false, Option, none, List, [], ◌∷◌, ◌==◌, eq_iff, arith,
}
use yeti.Base.Int.{ℤ, pos, ◌≤ℤ◌, ◌<ℤ◌}
use yeti.Base.Lists.{All, one_of}
use yeti.Broker.Process.{RetryConfig, message_policy}
use yeti.Config.Types.{
  GoLib, ServerConfig, KafkaConfig, RabbitMqConfig, BrokerConfig, PostgresConfig, RedisConfig,
  MongoDbConfig, DatabaseConfig, DeduplicationConfig, Config,
}
use yeti.Config.Validator.{
  ValidationError, validate_server, validate_brokers, validate_retry, validate_kafka,
  validate_rabbitmq, validate_broker, validate_postgres, validate_redis, validate_mongodb,
  validate_database, validate_deduplication, validate_static, refuse, invalid, not_positive_float,
}

abbrev pub ValidPort : ℤ → Type 0
ValidPort port = (pos 1 ≤ℤ port) × (port ≤ℤ pos 65535)

-- A text is one of the texts of a list.
abbrev pub OneOf : String → List String → Type 0
OneOf s [] = ⊥
OneOf s (t ∷ ts) = (s ≡ t) ⊎ OneOf s ts

one_of_iff : (s : String) (ts : List String) → (one_of s ts ≡ true) ↔ OneOf s ts
one_of_iff s [] = ground arith
one_of_iff s (t ∷ ts) = ground (arith, one_of_iff s ts, eq_iff s t)

-- `i` as a wait is no more than `m`, when both are set.
abbrev pub Ordered : ℤ → ℤ → Type 0
Ordered i m = (i ≤ℤ pos 0) ⊎ (m ≤ℤ pos 0) ⊎ (i ≤ℤ m)

abbrev pub ValidServer : ServerConfig → Type 0
ValidServer c =
    ValidPort c.port × (pos 0 <ℤ c.read_timeout_seconds) × (pos 0 <ℤ c.write_timeout_seconds)

abbrev pub ValidRetry : RetryConfig → Type 0
ValidRetry c =
    (pos 0 ≤ℤ c.max_attempts)
    × (pos 0 ≤ℤ c.initial_interval)
    × (pos 0 ≤ℤ c.max_interval)
    × Ordered c.initial_interval c.max_interval
    × (not_positive_float c.multiplier ≡ false)

abbrev pub ValidKafka : KafkaConfig → Type 0
ValidKafka c =
    (c.brokers ≢ [])
    × All (λ b. (b == "") ≡ false) c.brokers
    × (c.group_id ≢ "")
    × ValidRetry c.retry

abbrev pub ValidRabbitMq : RabbitMqConfig → Type 0
ValidRabbitMq c = (c.host ≢ "") × ValidPort c.port

-- The settings of the broker that is not used are free.
abbrev pub ValidBroker : BrokerConfig → Type 0
ValidBroker c =
    ((c.type_name ≡ "kafka") × ValidKafka c.kafka)
    ⊎ ((c.type_name ≡ "rabbitmq") × ValidRabbitMq c.rabbitmq)

module _ (lib : GoLib) where
  abbrev pub ValidPostgres : PostgresConfig → Type 0
  ValidPostgres c =
      (c.host ≢ "")
      × ValidPort c.port
      × (c.user ≢ "")
      × (c.db_name ≢ "")
      × ((c.ssl_mode ≡ "")
          ⊎ OneOf (lib.to_lower c.ssl_mode)
              ("disable" ∷ "allow" ∷ "prefer" ∷ "require" ∷ "verify-ca" ∷ "verify-full" ∷ []))

  abbrev pub ValidRedis : RedisConfig → Type 0
  ValidRedis c = (c.host ≢ "") × ValidPort c.port × (pos 0 ≤ℤ c.ttl_seconds)

  abbrev pub ValidMongoDb : MongoDbConfig → Type 0
  ValidMongoDb c =
      ((lib.has_prefix c.uri "mongodb://" ≡ true) ⊎ (lib.has_prefix c.uri "mongodb+srv://" ≡ true))
      × (c.database ≢ "")

  -- A store that has neither a host nor a port (for MongoDB: no URI) is not used.
  abbrev pub ValidDatabase : DatabaseConfig → Type 0
  ValidDatabase c =
      (((c.postgres.host ≡ "") × (c.postgres.port ≤ℤ pos 0)) ⊎ ValidPostgres c.postgres)
      × (((c.redis.host ≡ "") × (c.redis.port ≤ℤ pos 0)) ⊎ ValidRedis c.redis)
      × ((c.mongodb.uri ≡ "") ⊎ ((c.mongodb.uri ≢ "") × ValidMongoDb c.mongodb))

  abbrev pub ValidDeduplication : DeduplicationConfig → Type 0
  ValidDeduplication c =
      ((c.hash_algorithm ≡ "")
        ⊎ OneOf (lib.to_lower c.hash_algorithm) ("md5" ∷ "sha256" ∷ "sha1" ∷ []))
      × (pos 0 ≤ℤ c.ttl_seconds)
      × ((c.on_redis_error ≡ "")
          ⊎ OneOf (lib.to_lower c.on_redis_error) ("allow" ∷ "reject" ∷ "fail" ∷ []))

  abbrev pub IsValid : Config → Type 0
  IsValid c =
      ValidServer c.server
      × ValidBroker c.broker
      × ValidDatabase c.database
      × ValidDeduplication c.deduplication

  validate_server_iff : (c : ServerConfig) → (validate_server lib c ≡ none) ↔ ValidServer c
  unfolding validate_server
  validate_server_iff c = ground arith

  validate_brokers_iff :
      (i : ℕ) (brokers : List String) (rest : Option ValidationError)
      → (validate_brokers lib i brokers rest ≡ none)
        ↔ (All (λ b. (b == "") ≡ false) brokers × (rest ≡ none))
  unfolding validate_brokers
  validate_brokers_iff i [] rest = ground arith
  validate_brokers_iff i (b ∷ bs) rest = ground (arith, validate_brokers_iff (suc i) bs rest)

  validate_retry_iff : (c : RetryConfig) → (validate_retry lib c ≡ none) ↔ ValidRetry c
  unfolding validate_retry
  validate_retry_iff c = ground arith

  validate_kafka_iff : (c : KafkaConfig) → (validate_kafka lib c ≡ none) ↔ ValidKafka c
  unfolding validate_kafka
  validate_kafka_iff c = ground (
    arith,
    eq_iff c.group_id "",
    validate_retry_iff c.retry,
    validate_brokers_iff 0 c.brokers (
        refuse (c.group_id == "")
          (invalid "broker.kafka.group_id" "Kafka consumer group ID is required")
          (validate_retry lib c.retry)),
  )

  validate_broker_iff : (c : BrokerConfig) → (validate_broker lib c ≡ none) ↔ ValidBroker c
  unfolding validate_broker validate_rabbitmq
  validate_broker_iff c = ground (
    arith,
    eq_iff c.type_name "",
    eq_iff c.type_name "kafka",
    eq_iff c.type_name "rabbitmq",
    eq_iff c.rabbitmq.host "",
    eq_iff "kafka" "rabbitmq",
    eq_iff "kafka" "",
    eq_iff "rabbitmq" "",
    validate_kafka_iff c.kafka,
  )

  validate_postgres_iff : (c : PostgresConfig) → (validate_postgres lib c ≡ none) ↔ ValidPostgres c
  unfolding validate_postgres
  validate_postgres_iff c = ground (
    arith,
    eq_iff c.host "",
    eq_iff c.user "",
    eq_iff c.db_name "",
    eq_iff c.ssl_mode "",
    one_of_iff (lib.to_lower c.ssl_mode)
        ("disable" ∷ "allow" ∷ "prefer" ∷ "require" ∷ "verify-ca" ∷ "verify-full" ∷ []),
  )

  validate_redis_iff : (c : RedisConfig) → (validate_redis lib c ≡ none) ↔ ValidRedis c
  unfolding validate_redis
  validate_redis_iff c = ground (arith, eq_iff c.host "")

  validate_mongodb_iff :
      (c : MongoDbConfig) → (validate_mongodb lib c ≡ none) ↔ ((c.uri ≢ "") × ValidMongoDb c)
  unfolding validate_mongodb
  validate_mongodb_iff c = ground (arith, eq_iff c.uri "", eq_iff c.database "")

  validate_database_iff : (c : DatabaseConfig) → (validate_database lib c ≡ none) ↔ ValidDatabase c
  unfolding validate_database
  validate_database_iff c = ground (
    arith,
    eq_iff c.postgres.host "",
    eq_iff c.redis.host "",
    eq_iff c.mongodb.uri "",
    validate_postgres_iff c.postgres,
    validate_redis_iff c.redis,
    validate_mongodb_iff c.mongodb,
  )

  validate_deduplication_iff :
      (c : DeduplicationConfig) → (validate_deduplication lib c ≡ none) ↔ ValidDeduplication c
  unfolding validate_deduplication
  validate_deduplication_iff c = ground (
    arith,
    eq_iff c.hash_algorithm "",
    eq_iff c.on_redis_error "",
    one_of_iff (lib.to_lower c.hash_algorithm) ("md5" ∷ "sha256" ∷ "sha1" ∷ []),
    one_of_iff (lib.to_lower c.on_redis_error) ("allow" ∷ "reject" ∷ "fail" ∷ []),
  )

  validate_static_parts :
      (c : Config)
      → (validate_static lib c ≡ []) ↔ (
          (validate_server lib c.server ≡ none)
          × (validate_broker lib c.broker ≡ none)
          × (validate_database lib c.database ≡ none)
          × (validate_deduplication lib c.deduplication ≡ none))
  unfolding validate_static
  validate_static_parts c = ground arith

  -- The validation answers without an error exactly for the configurations whose server, broker,
  -- databases and deduplication settings are valid: the ranges, the required names and the allowed
  -- words that `IsValid` lists.
  pub validate_static_iff : (c : Config) → (validate_static lib c ≡ []) ↔ IsValid c
  validate_static_iff c = (
    λ h.
        let (s, b, d, e) = (validate_static_parts c).0 h in
        (
          (validate_server_iff c.server).0 s,
          (validate_broker_iff c.broker).0 b,
          (validate_database_iff c.database).0 d,
          (validate_deduplication_iff c.deduplication).0 e,
        ),
    λ (s, b, d, e). (validate_static_parts c).1 (
      (validate_server_iff c.server).1 s,
      (validate_broker_iff c.broker).1 b,
      (validate_database_iff c.database).1 d,
      (validate_deduplication_iff c.deduplication).1 e,
    ),
  )

  -- The policy for messages of retry settings that pass and that set both intervals waits at first no
  -- longer than at most.
  pub message_policy_intervals :
      (c : RetryConfig)
      → validate_retry lib c ≡ none
      → pos 0 <ℤ c.initial_interval
      → pos 0 <ℤ c.max_interval
      → (message_policy c).initial_interval ≤ℤ (message_policy c).max_interval
  unfolding validate_retry message_policy
  message_policy_intervals c valid h h' = ground arith
