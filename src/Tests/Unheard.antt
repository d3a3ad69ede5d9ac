-- ===== src/Tests/Unheard.antt =====
-- An update of the deduplication settings, with a JSON that writes the metadata of an event too.
use yeti.Base.{◌≡◌, refl, String, false, Option, none, some, List, [], ◌∷◌, ◌++◌, arith, eq_iff}
use yeti.Base.Int.{pos}
use yeti.Base.Lists.{one_of}
use yeti.Model.Value.{array, object, Fields, field, lookup}
use yeti.Model.Event.{ConfigUpdateEvent}
use yeti.Model.Message.{MessageEnvelope, lookup_nil}
use yeti.Errors.Chain.{Err}
use yeti.Errors.Result.{ok}
use yeti.Cel.{texts}
use yeti.ConfigHandler.{handle_config_update_event}
use yeti.Management.Notifier.{Json}
use yeti.Management.Requests.{UpdateDeduplicationConfigRequest}
use yeti.Management.Validator.{validate_deduplication_config}
use yeti.Management.Store.{World, DeduplicationConfig}
use yeti.Management.Announces.{dedup_handler}
use yeti.Management.DedupSettings.{update_deduplication_config}
use yeti.Management.Unheard.{
  tags, WritesTags, update_deduplication_config-handle_config_update_event,
}
use yeti.Tests.Management.{written, works, notifier, decodes}
use yeti.Tests.Table.{table_db, no_documents, codec, call, service, no_rules}

abbrev with_metadata : Option Fields → Fields → Fields
with_metadata none d = d
with_metadata (some x) d = field "metadata" (object x) d

abbrev json : Json
json = record {
  Bytes = ConfigUpdateEvent;
  marshal = ok;
  unmarshal = λ e. ok (with_metadata e.metadata (written e));
}

other_key :
    (e : ConfigUpdateEvent) (k : String)
    → one_of k tags ≡ false
    → lookup k (with_metadata e.metadata (written e)) ≡ none
unfolding lookup
other_key e k h = ground (
  arith,
  eq_iff k "event_type",
  eq_iff "event_type" k,
  eq_iff k "service_type",
  eq_iff "service_type" k,
  eq_iff k "action",
  eq_iff "action" k,
  eq_iff k "metadata",
  eq_iff "metadata" k,
)

json-WritesTags : WritesTags json
json-WritesTags = record {
  other = λ e bytes d k marshalled read h. ground (arith, other_key e k h);
}

abbrev by_source : UpdateDeduplicationConfigRequest
by_source = record {
  hash_algorithm = none;
  ttl_seconds = none;
  on_redis_error = none;
  fields_to_hash = some ("source" ∷ []);
}

abbrev sourced : DeduplicationConfig
sourced = record {
  hash_algorithm = "md5";
  ttl_seconds = pos 3600;
  on_redis_error = "allow";
  fields_to_hash = "source" ∷ [];
}

abbrev after : World table_db no_documents
after =
    (update_deduplication_config table_db no_documents codec json service call by_source no_rules).1

after_is :
    update_deduplication_config table_db no_documents codec json service call by_source no_rules
    ≡ (ok sourced, after)
unfolding update_deduplication_config validate_deduplication_config
after_is = refl

abbrev set_fields : List String → List String → List String × Option Err
set_fields l s = (l, none)

update_deduplication_config-handle_config_update_event_example :
    (after.dedup_config ≡ some sourced)
    × (sourced.fields_to_hash ≡ "source" ∷ [])
    × (m : MessageEnvelope) × (after.sent ≡ [] ++ (record { topic = "config"; msg = m } ∷ []))
    × (x : Fields) × (lookup_nil "metadata" m.metadata.enrichment ≡ some (object x))
    × (lookup "fields_to_hash" x ≡ some (array (texts ("source" ∷ []))))
    × (handle_config_update_event (List String) decodes (dedup_handler set_fields) m ("id" ∷ [])
        ≡ ("id" ∷ [], none))
update_deduplication_config-handle_config_update_event_example =
    update_deduplication_config-handle_config_update_event table_db no_documents codec json service
      json-WritesTags call by_source no_rules after sourced ("source" ∷ []) notifier works decodes
      set_fields ("id" ∷ []) _ after_is refl refl refl
      (λ h. absurd (ground (arith, eq_iff "config" "", h))) refl refl refl (λ m. refl)
