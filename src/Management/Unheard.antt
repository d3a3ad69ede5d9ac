-- ===== src/Management/Unheard.antt =====
-- An update of the deduplication settings, from internal/management/service.go to the handler of
-- internal/deduplication that its event reaches.
use yeti.Base.{
  String, ◌≡◌, refl, ◌≢◌, false, Option, none, some, List, [], ◌∷◌, ◌++◌, arith, eq_iff,
  Option-cases, inl, inr,
}
use yeti.Base.Lists.{one_of}
use yeti.Model.Value.{Fields, lookup, insert, array, object}
use yeti.Model.Message.{MessageEnvelope, lookup_nil}
use yeti.Model.Event.{ConfigUpdateEvent}
use yeti.Errors.Chain.{Err}
use yeti.Errors.Result.{ok}
use yeti.Cel.{texts}
use yeti.Broker.Producer.{Producer, Sent}
use yeti.ConfigHandler.{event_field, handle_config_update_event}
use yeti.Management.Notifier.{
  Json, ConfigEventProducer, event_envelope, publish_event, dedup_config_event,
  publish_dedup_config_event,
}
use yeti.Management.Requests.{UpdateDeduplicationConfigRequest}
use yeti.Management.Validator.{validate_deduplication_config}
use yeti.Management.Store.{Database, Collection, Codec, Call, World, DeduplicationConfig}
use yeti.Management.Service.{Service, get_changed_by}
use yeti.Management.DedupSettings.{event_metadata, update_deduplication_config}
use yeti.Management.Announces.{dedup_handler}

-- The names that the struct tags of `ConfigUpdateEvent` give its fields.
abbrev pub tags : List String
tags =
    "event_type" ∷ "service_type" ∷ "rule_id" ∷ "action" ∷ "timestamp" ∷ "changed_by" ∷ "metadata"
    ∷ []

-- What encoding/json documents: the object of a struct has no other keys than the names of its fields.
pub record WritesTags (json : Json) : Type 0 where
  pub other :
      (e : ConfigUpdateEvent) (bytes : Json.Bytes json) (d : Fields) (k : String)
      → Json.marshal json e ≡ ok bytes
      → Json.unmarshal json bytes ≡ ok d
      → one_of k tags ≡ false
      → lookup k d ≡ none

module _ (db : Database) (mongo : Collection) (codec : Codec) (json : Json) (s : Service)
    (writes : WritesTags json) where
  -- An update that sets the fields to hash, where the broker, JSON and the handler take its event, and
  -- JSON writes only the tags of the event's fields, is kept, and announced by one more message. That
  -- holds these fields, under "metadata", but the deduplication service, whose handler has an updater
  -- and no reloader, handles it without an error and without a change, whatever its updater does.
  pub update_deduplication_config-handle_config_update_event :
      (call : Call) (req : UpdateDeduplicationConfigRequest) (w w' : World db mongo)
      (c : DeduplicationConfig) (fields : List String) (n : ConfigEventProducer) (p : Producer)
      {S : Type 0} (decode : Option Fields → Option Err) (u : List String → S → S × Option Err)
      (f : S) (d : Fields) {bytes : json.Bytes}
      → update_deduplication_config db mongo codec json s call req w ≡ (ok c, w')
      → req.fields_to_hash ≡ some fields
      → s.config_event_producer ≡ some n
      → n.producer ≡ some p
      → n.topic ≢ ""
      → json.marshal (
          dedup_config_event call.event_now "update"
            (get_changed_by call.ctx)
            (some (event_metadata c)))
        ≡ ok bytes
      → json.unmarshal bytes ≡ ok d
      → decode (some d) ≡ none
      → ((m : Sent) → p m ≡ none)
      → (w'.dedup_config ≡ some c)
        × (c.fields_to_hash ≡ fields)
        × (m : MessageEnvelope) × (w'.sent ≡ w.sent ++ (record { topic = n.topic; msg = m } ∷ []))
        × (x : Fields) × (lookup_nil "metadata" m.metadata.enrichment ≡ some (object x))
        × (lookup "fields_to_hash" x ≡ some (array (texts fields)))
        × (handle_config_update_event S decode (dedup_handler u) m f ≡ (f, none))
  unfolding update_deduplication_config publish_dedup_config_event publish_event
      handle_config_update_event event_field event_envelope dedup_config_event lookup insert
  update_deduplication_config-handle_config_update_event call req w w' c fields n p {S} decode u f d
        {bytes} given set produced announces topic encoded decoded accepted works =
      let e =
        dedup_config_event call.event_now "update" (get_changed_by call.ctx)
          (some (event_metadata c)) in
      let m = event_envelope call.event_uuid call.message_now d e in
      elim (Option-cases (validate_deduplication_config req)) [
        | inr (x, refused) ↦ absurd (ground arith)
        | inl admitted ↦ (
          ground arith,
          ground arith,
          m,
          ground (arith, eq_iff n.topic "", works (record { topic = n.topic; msg = m })),
          event_metadata c,
          ground arith,
          ground arith,
          ground (arith, writes.other e bytes d "fields_to_hash" encoded decoded refl),
        )
      ]
