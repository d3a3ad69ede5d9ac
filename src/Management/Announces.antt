-- ===== src/Management/Announces.antt =====
-- What the events of the management service do in the services that they announce a change to.
use yeti.Base.{ℕ, String, ◌≡◌, ◌≢◌, Option, none, some, List, [], ◌∷◌, arith, eq_iff}
use yeti.Model.Value.{Fields, lookup, insert}
use yeti.Model.Message.{MessageEnvelope}
use yeti.Model.Event.{
  event_type_filtering_rule_updated, event_type_dedup_config_updated, service_type_filtering,
  service_type_deduplication,
}
use yeti.Errors.Chain.{Err}
use yeti.Errors.Result.{ok}
use yeti.Broker.Producer.{Producer, Sent}
use yeti.ConfigHandler.{Handler, event_field, handle_config_update_event}
use yeti.Management.Notifier.{
  Json, ConfigEventProducer, event_envelope, publish_event, filtering_rule_event,
  publish_filtering_rule_event,
}

-- `NewHandler` of the filtering service: a reloader, and no updater.
abbrev pub filtering_handler : {S : Type 0} → (S → S × Option Err) → Handler S
filtering_handler r = record {
  expected_event_type = event_type_filtering_rule_updated;
  expected_service_type = service_type_filtering;
  reloader = some r;
  updater = none;
}

-- `NewHandler` of the deduplication service: an updater, and no reloader.
abbrev pub dedup_handler : {S : Type 0} → (List String → S → S × Option Err) → Handler S
dedup_handler u = record {
  expected_event_type = event_type_dedup_config_updated;
  expected_service_type = service_type_deduplication;
  reloader = none;
  updater = some u;
}

module _ (json : Json) (id : String) (now : ℕ) (S : Type 0)
    (decode : Option Fields → Option Err) where
  -- An event on a filtering rule, where the broker takes it and JSON encodes and decodes it, is
  -- published once, and in the filtering service, whose handler has no updater, it reloads the rules.
  pub publish_filtering_rule_event-handle_config_update_event :
      (n : ConfigEventProducer) (p : Producer) (at : ℕ) (action rule_id changed_by : String)
      (r : S → S × Option Err) (s : S) (d : Fields) {bytes : json.Bytes}
      → n.producer ≡ some p
      → n.topic ≢ ""
      → json.marshal (filtering_rule_event at action rule_id changed_by) ≡ ok bytes
      → json.unmarshal bytes ≡ ok d
      → decode (some d) ≡ none
      → ((m : Sent) → p m ≡ none)
      → (m : MessageEnvelope) × ((publish_filtering_rule_event json id now n at action rule_id
            changed_by).published
          ≡ record { topic = n.topic; msg = m } ∷ [])
        × (handle_config_update_event S decode (filtering_handler r) m s ≡ r s)
  unfolding publish_filtering_rule_event publish_event handle_config_update_event event_field
      event_envelope filtering_rule_event lookup insert
  publish_filtering_rule_event-handle_config_update_event n p at action rule_id changed_by r s d
        {bytes} hp ht hm hu hd works =
      (
        event_envelope id now d (filtering_rule_event at action rule_id changed_by),
        ground (
          arith,
          eq_iff n.topic "",
          works (record {
            topic = n.topic;
            msg = event_envelope id now d (filtering_rule_event at action rule_id changed_by);
          }),
        ),
        ground (arith, hd),
      )
