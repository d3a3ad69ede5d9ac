-- ===== src/Broker/Factory.antt =====
-- internal/broker/factory.go: what makes a producer or a consumer of Kafka is a parameter.
use yeti.Base.{◌<>◌, ◌≡◌, none, arith, ◌==◌, if◌then◌else◌}
use yeti.Errors.Chain.{plain}
use yeti.Errors.Result.{Result, ok, err}
use yeti.Config.Types.{GoLib, BrokerConfig, KafkaConfig}
use yeti.Config.Validator.{validate_broker, validate_rabbitmq}

unfoldable pub new_producer : {P : Type 0} → (KafkaConfig → P) → BrokerConfig → Result P
new_producer new_kafka_producer cfg =
    if cfg.type_name == "kafka"
    then ok (new_kafka_producer cfg.kafka)
    else err (plain ("unknown broker type: " <> cfg.type_name))

unfoldable pub new_consumer : {C : Type 0} → (KafkaConfig → C) → BrokerConfig → Result C
new_consumer new_kafka_consumer cfg =
    if cfg.type_name == "kafka"
    then ok (new_kafka_consumer cfg.kafka)
    else err (plain ("unknown broker type: " <> cfg.type_name))

-- A configuration of RabbitMQ with a host and a port is valid, but gives neither a producer nor a
-- consumer.
pub validate_broker-new_producer :
    {P : Type 0} (lib : GoLib) (new_kafka : KafkaConfig → P) (cfg : BrokerConfig)
    → cfg.type_name ≡ "rabbitmq"
    → validate_rabbitmq lib cfg.rabbitmq ≡ none
    → (validate_broker lib cfg ≡ none)
      × (new_producer new_kafka cfg ≡ err (plain ("unknown broker type: " <> "rabbitmq")))
      × (new_consumer new_kafka cfg ≡ err (plain ("unknown broker type: " <> "rabbitmq")))
unfolding new_producer new_consumer validate_broker
validate_broker-new_producer lib new_kafka cfg h valid = rw h (ground arith)
