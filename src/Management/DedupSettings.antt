-- ===== src/Management/DedupSettings.antt =====
-- internal/management/service.go: the deduplication settings, which the service keeps in memory.
use yeti.Base.{none, some, value_or}
use yeti.Base.Int.{pos}
use yeti.Model.Value.{text, int, array, Fields, no_fields, insert}
use yeti.Errors.Chain.{err_validation, err_not_found}
use yeti.Errors.Result.{ok, err}
use yeti.Cel.{texts}
use yeti.Management.Notifier.{Json, publish_dedup_config_event}
use yeti.Management.Requests.{UpdateDeduplicationConfigRequest}
use yeti.Management.Validator.{validate_deduplication_config}
use yeti.Management.Store.{
  Database, Collection, Codec, Call, World, DeduplicationConfig, bare, fail_detail, Action,
}
use yeti.Management.Service.{Service, wrapped, default_fields, get_changed_by, sent_by}

abbrev pub default_config : DeduplicationConfig
default_config = record {
  hash_algorithm = "md5";
  ttl_seconds = pos 3600;
  on_redis_error = "allow";
  fields_to_hash = default_fields;
}

abbrev pub updated_config :
    UpdateDeduplicationConfigRequest → DeduplicationConfig → DeduplicationConfig
updated_config req c = record {
  hash_algorithm = value_or req.hash_algorithm c.hash_algorithm;
  ttl_seconds = value_or req.ttl_seconds c.ttl_seconds;
  on_redis_error = value_or req.on_redis_error c.on_redis_error;
  fields_to_hash = value_or req.fields_to_hash c.fields_to_hash;
}

abbrev pub event_metadata : DeduplicationConfig → Fields
event_metadata c = insert "ttl_seconds" (int c.ttl_seconds) (
    insert "hash_algorithm" (text c.hash_algorithm)
      (insert "fields_to_hash" (array (texts c.fields_to_hash)) no_fields))

module _ (db : Database) (mongo : Collection) (codec : Codec) (json : Json) (s : Service) where
  unfoldable pub get_deduplication_config : Action (World db mongo) DeduplicationConfig
  get_deduplication_config w = elim w.dedup_config [
    | none ↦
        fail_detail (bare err_not_found) "message" (text "deduplication config not initialized") w
    | some c ↦ (ok c, w)
  ]

  abbrev pub publish_config : Call → DeduplicationConfig → World db mongo → World db mongo
  publish_config call c w = elim s.config_event_producer [
    | none ↦ w
    | some p ↦
        sent_by db mongo codec json
          (publish_dedup_config_event json call.event_uuid call.message_now p call.event_now
            "update" (get_changed_by call.ctx) (some (event_metadata c)))
          w
  ]

  -- The rest of the update, for the new settings.
  abbrev pub keep : Call → DeduplicationConfig → Action (World db mongo) DeduplicationConfig
  keep call c w = (ok c, publish_config call c (record w { dedup_config = some c }))

  unfoldable pub update_deduplication_config :
      Call → UpdateDeduplicationConfigRequest → Action (World db mongo) DeduplicationConfig
  update_deduplication_config call req w = elim (validate_deduplication_config req) [
    | some e ↦ (err (wrapped err_validation e), w)
    | none ↦ keep call (updated_config req (value_or w.dedup_config default_config)) w
  ]
