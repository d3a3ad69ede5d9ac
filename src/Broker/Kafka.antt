-- ===== src/Broker/Kafka.antt =====
-- internal/broker/kafka.go: the producer and the consumer, but for the loop of `Consume`. The writer and
-- the reader of kafka-go and the encoding of messages are parameters; so is the clock.
use yeti.Base.{
  ℕ, String, ◌≡◌, ◌↔◌, not, Option, none, some, List, [], arith, ◌==◌, if◌then◌else◌, inl, inr,
}
use yeti.Errors.Chain.{Err, wrap}
use yeti.Errors.Result.{Result, ok, err, Result-cases}
use yeti.Model.Message.{MessageEnvelope}
use yeti.Config.Types.{KafkaConfig}
use yeti.Tracing.Carrier.{
  Header, Propagator, get, keys, inject_trace_context, extract_trace_context, inject_nothing,
}

-- `kafka.Message`, with the encoded envelope as its value.
pub record Message : Type 0 where
  pub topic : String
  pub key : String
  pub value : String
  pub headers : List Header
  pub time : ℕ

-- `kafka.Writer` is its addresses, and `KafkaProducer` is its writer.
pub record KafkaProducer : Type 0 where
  pub addr : List String

unfoldable pub new_kafka_producer : KafkaConfig → KafkaProducer
new_kafka_producer cfg = record { addr = cfg.brokers }

-- What was set to nil is `none`. A reader is made by `Consume`.
pub record KafkaConsumer : Type 0 where
  pub cfg : KafkaConfig
  pub reader : Option (String × KafkaConfig)
  pub dlq_producer : Option KafkaProducer
  pub service_name : String

unfoldable pub new_kafka_consumer : KafkaConfig → KafkaConsumer
new_kafka_consumer cfg = record {
  cfg = cfg;
  reader = none;
  dlq_producer = if not (cfg.dlq_topic == "") then some (new_kafka_producer cfg) else none;
  service_name = "unknown";
}

unfoldable pub set_service_name : String → KafkaConsumer → KafkaConsumer
set_service_name name c = record c { service_name = name }

-- The reader that `Consume` makes for a topic.
unfoldable pub open_reader : String → KafkaConsumer → KafkaConsumer
open_reader topic c = record c { reader = some (topic, c.cfg) }

-- The error of closing two things that may be nil: the first of the errors.
abbrev first_error : Option Err → Option Err → Option Err
first_error none e = e
first_error (some e) later = some e

abbrev closed {ℓ} : {A : Type ℓ} → (A → Option Err) → Option A → Option Err
closed close none = none
closed close (some a) = close a

-- `Close` of the consumer, where closing the reader and the producer answers as given.
unfoldable pub close :
    (String × KafkaConfig → Option Err) → (KafkaProducer → Option Err) → KafkaConsumer → Option Err
close close_reader close_writer c =
    first_error (closed close_reader c.reader) (closed close_writer c.dlq_producer)

module _ {Ctx W : Type 0} (marshal : MessageEnvelope → Result String)
    (write_messages : Message → W → Option Err × W) (propagator : Option (Propagator Ctx)) where
  abbrev pub message : Ctx → String → MessageEnvelope → ℕ → String → Message
  message ctx topic msg now body = record {
    topic = topic;
    key = msg.id;
    value = body;
    headers = inject_trace_context propagator ctx [];
    time = now;
  }

  abbrev written : Option Err × W → Option Err × W
  written (none, w) = (none, w)
  written (some e, w) = (some (wrap "failed to write kafka message" e), w)

  unfoldable pub publish : Ctx → String → MessageEnvelope → ℕ → W → Option Err × W
  publish ctx topic msg now w = elim (marshal msg) [
    | err e ↦ (some (wrap "failed to marshal message" e), w)
    | ok body ↦ written (write_messages (message ctx topic msg now body) w)
  ]

-- A message is published without a trace: whatever the propagator sets for the context, the writer is
-- given the same message as without a propagator, and what a consumer extracts from its headers, with
-- any propagator and in any context, is what that propagator extracts from no headers at all.
pub publish_untraced :
    {Ctx W : Type 0} (marshal : MessageEnvelope → Result String)
    (write_messages : Message → W → Option Err × W) (propagator propagator' : Propagator Ctx)
    (ctx ctx' : Ctx) (topic : String) (msg : MessageEnvelope) (now : ℕ) (w : W) (body : String)
    → (publish marshal write_messages (some propagator) ctx topic msg now w
        ≡ publish marshal write_messages none ctx topic msg now w)
      × (extract_trace_context
            (some propagator')
            ctx'
            (message marshal write_messages (some propagator) ctx topic msg now body).headers
          ≡ propagator'.extract ctx' (λ key. "") [])
unfolding publish inject_trace_context extract_trace_context get keys
publish_untraced marshal write_messages p p' ctx ctx' topic msg now w body = (
  elim (Result-cases (marshal msg)) [
    | inl (b, encoded) ↦ ground (arith, inject_nothing (some p) ctx)
    | inr (e, failed) ↦ ground arith
  ],
  rw (inject_nothing (some p) ctx),
)

module _ {Ctx W : Type 0} (marshal : MessageEnvelope → Result String)
    (write_messages : Message → W → Option Err × W) (propagator : Option (Propagator Ctx)) where
  -- A message is published without an error exactly when it is encoded and the writer takes it, under
  -- its topic and with its ID as the key; a message that is not encoded is not given to the writer.
  pub publish_ok_iff :
      (ctx : Ctx) (topic : String) (msg : MessageEnvelope) (now : ℕ) (w : W)
      → let r = publish marshal write_messages propagator ctx topic msg now w in
        ((r.0 ≡ none) ↔ (
          (body : String) × (marshal msg ≡ ok body)
          × ((write_messages (message marshal write_messages propagator ctx topic msg now body) w).0
              ≡ none)))
  unfolding publish
  publish_ok_iff ctx topic msg now w = elim (Result-cases (marshal msg)) [
    | inr (e, failed) ↦ (λ r. cc, λ (body, encoded, taken). cc)
    | inl (body, encoded) ↦
        (λ r. (body, encoded, ground arith), λ (body', encoded', taken). ground arith)
  ]
