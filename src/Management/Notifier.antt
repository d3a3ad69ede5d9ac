-- ===== src/Management/Notifier.antt =====
-- internal/management/notifier.go: the events that announce a change of the stored rules.
use yeti.Base.{ℕ, String, Option, none, some, [], ◌==◌, if◌then◌else◌}
use yeti.Model.Value.{text, object, Fields, no_fields, insert}
use yeti.Model.Message.{MessageEnvelope, empty_metadata}
use yeti.Model.Event.{
  ConfigUpdateEvent, event_type_filtering_rule_updated, event_type_enrichment_rule_updated,
  event_type_dedup_config_updated, service_type_filtering, service_type_enrichment,
  service_type_deduplication,
}
use yeti.Errors.Result.{Result, ok, err, wrap_err}
use yeti.Broker.Producer.{Producer, Outcome, publish, quiet}

-- `json.Marshal` of an event, and `json.Unmarshal` of the bytes into a map.
pub record Json : Type 1 where
  pub Bytes : Type 0
  pub marshal : ConfigUpdateEvent → Result Bytes
  pub unmarshal : Bytes → Result Fields

-- `producer` is `none` for nil.
pub record ConfigEventProducer : Type 0 where
  pub producer : Option Producer
  pub topic : String

-- The enrichment metadata of the envelope.
abbrev event_enrichment : ConfigUpdateEvent → Fields
event_enrichment event =
    let names =
      insert "service_type" (text event.service_type)
        (insert "event_type" (text event.event_type) no_fields) in
    elim event.metadata [ none ↦ names | some d ↦ insert "metadata" (object d) names ]

-- The envelope of an event, for the data that JSON made of it; `id` is the new UUID.
unfoldable pub event_envelope : String → ℕ → Fields → ConfigUpdateEvent → MessageEnvelope
event_envelope id now data_map event = record {
  id = id;
  source = "management-service";
  timestamp = now;
  payload = some data_map;
  metadata = record empty_metadata { enrichment = some (event_enrichment event) };
}

-- The events, at the time `at`.
unfoldable pub filtering_rule_event : ℕ → String → String → String → ConfigUpdateEvent
filtering_rule_event at action rule_id changed_by = record {
  event_type = event_type_filtering_rule_updated;
  service_type = service_type_filtering;
  rule_id = rule_id;
  action = action;
  timestamp = at;
  changed_by = changed_by;
  metadata = none;
}

unfoldable pub enrichment_rule_event : ℕ → String → String → String → ConfigUpdateEvent
enrichment_rule_event at action rule_id changed_by = record {
  event_type = event_type_enrichment_rule_updated;
  service_type = service_type_enrichment;
  rule_id = rule_id;
  action = action;
  timestamp = at;
  changed_by = changed_by;
  metadata = none;
}

unfoldable pub dedup_config_event : ℕ → String → String → Option Fields → ConfigUpdateEvent
dedup_config_event at action changed_by metadata = record {
  event_type = event_type_dedup_config_updated;
  service_type = service_type_deduplication;
  rule_id = "";
  action = action;
  timestamp = at;
  changed_by = changed_by;
  metadata = metadata;
}

module _ (json : Json) (id : String) (now : ℕ) where
  open json use {marshal, unmarshal}

  abbrev publish_data : Producer → String → ConfigUpdateEvent → Result Fields → Outcome
  publish_data p topic event (err e) = record { published = []; error = some e }
  publish_data p topic event (ok d) =
      publish p (λ e. e) (record { topic = topic; msg = event_envelope id now d event })

  unfoldable pub publish_event : ConfigEventProducer → ConfigUpdateEvent → Outcome
  publish_event n event = elim n.producer [
    | none ↦ quiet
    | some p ↦
        if n.topic == ""
        then quiet
        else elim (wrap_err "failed to marshal config event" (marshal event)) [
          | err e ↦ record { published = []; error = some e }
          | ok bytes ↦
              publish_data p n.topic event
                (wrap_err "failed to unmarshal event data" (unmarshal bytes))
        ]
  ]

  unfoldable pub publish_filtering_rule_event :
      ConfigEventProducer → ℕ → String → String → String → Outcome
  publish_filtering_rule_event n at action rule_id changed_by =
      publish_event n (filtering_rule_event at action rule_id changed_by)

  unfoldable pub publish_enrichment_rule_event :
      ConfigEventProducer → ℕ → String → String → String → Outcome
  publish_enrichment_rule_event n at action rule_id changed_by =
      publish_event n (enrichment_rule_event at action rule_id changed_by)

  unfoldable pub publish_dedup_config_event :
      ConfigEventProducer → ℕ → String → String → Option Fields → Outcome
  publish_dedup_config_event n at action changed_by metadata =
      publish_event n (dedup_config_event at action changed_by metadata)
