-- ===== src/Management/Service.antt =====
-- internal/management/service.go: the service and its options, and what its methods share.
use yeti.Base.{
  String, Bool, true, false, ◌&&◌, Option, none, some, List, [], ◌∷◌, ◌++◌, if◌then◌else◌, value_or,
}
use yeti.Base.Lists.{is_empty}
use yeti.Model.Value.{text, as_text, Fields}
use yeti.Errors.Chain.{App, Err, wrap_app, err_internal, err_not_found}
use yeti.Errors.Details.{error_text}
use yeti.Errors.Result.{Result, ok, err, Context}
use yeti.Broker.Producer.{Outcome}
use yeti.Management.Notifier.{
  Json, ConfigEventProducer, publish_filtering_rule_event, publish_enrichment_rule_event,
}
use yeti.Management.Store.{
  Database, Collection, Codec, Call, World, FilteringRule, DeduplicationConfig, RuleVersion,
  AuditLog, bare, fail_detail, Action,
}
use yeti.Management.Versioning.{rule_to_json, create_version, get_next_version, create_audit_log}

-- `has_…` says that the repository is not nil; the deduplication settings are in the world.
pub record Service : Type 0 where
  pub has_enrichment_repo : Bool
  pub has_versioning_repo : Bool
  pub audit_enabled : Bool
  pub config_event_producer : Option ConfigEventProducer

-- The options, for repositories that are not nil.
pub data ServiceOption : Type 0 where
  with_versioning : ServiceOption
  with_enrichment : ServiceOption
  with_config_events : ConfigEventProducer → ServiceOption
  with_deduplication_config : DeduplicationConfig → ServiceOption

abbrev pub default_fields : List String
default_fields = "id" ∷ "source" ∷ []

abbrev apply_option :
    ServiceOption → Service × Option DeduplicationConfig → Service × Option DeduplicationConfig
apply_option with_versioning (s, d) =
    (record s { has_versioning_repo = true; audit_enabled = true }, d)
apply_option with_enrichment (s, d) = (record s { has_enrichment_repo = true }, d)
apply_option (with_config_events p) (s, d) = (record s { config_event_producer = some p }, d)
apply_option (with_deduplication_config c) (s, d) = (
  s,
  some (record c {
    fields_to_hash = if is_empty c.fields_to_hash then default_fields else c.fields_to_hash;
  }),
)

abbrev apply_options :
    List ServiceOption → Service × Option DeduplicationConfig → Service × Option DeduplicationConfig
apply_options [] s = s
apply_options (o ∷ l) s = apply_options l (apply_option o s)

-- The service, and the deduplication settings that it starts with.
unfoldable pub new_service : List ServiceOption → Service × Option DeduplicationConfig
new_service opts =
    let (s, d) = apply_options opts (
      record {
        has_enrichment_repo = false;
        has_versioning_repo = false;
        audit_enabled = false;
        config_event_producer = none;
      },
      none,
    ) in
    (if s.has_versioning_repo then record s { audit_enabled = true } else s, d)

-- `Wrap(err, appErr)` of an error that is not nil.
abbrev pub wrapped : App → Err → Err
wrapped a e = value_or (wrap_app (some e) a) e

unfoldable pub get_enabled_value : Option Bool → Bool
get_enabled_value enabled = value_or enabled true

unfoldable pub get_changed_by : Context → String
get_changed_by ctx = elim ctx.user_id [
  | none ↦ "system"
  | some v ↦ value_or (as_text (some v)) "system"
]

-- The value of a result, and nil for an error that is not looked at.
abbrev pub or_nil : {A : Type 0} → Result A → Option A
or_nil (ok a) = some a
or_nil (err e) = none

module _ (db : Database) (mongo : Collection) (codec : Codec) (json : Json) where
  unfoldable pub handle_not_found_error : Err → String → {A : Type 0} → Action (World db mongo) A
  handle_not_found_error e id w =
      if codec.contains (error_text w.heap e) "not found"
      then fail_detail (bare err_not_found) "id" (text id) w
      else (err (wrapped err_internal e), w)

  unfoldable pub build_version : Call → FilteringRule → String → World db mongo → RuleVersion
  build_version call rule rule_json w = record {
    id = "";
    rule_id = rule.id;
    rule_type = "filtering";
    rule_data = rule_json;
    version = get_next_version db mongo rule.id w;
    changed_by = get_changed_by call.ctx;
    change_reason = "";
    created_at = 0;
  }

  unfoldable pub build_audit_log :
      Call → String → String → String → Option Fields → Option Fields → AuditLog
  build_audit_log call rule_id rule_type action old_value new_value = record {
    id = "";
    rule_id = some rule_id;
    rule_type = rule_type;
    action = action;
    old_value = old_value;
    new_value = new_value;
    changed_by = get_changed_by call.ctx;
    change_reason = "";
    ip_address = "";
    timestamp = 0;
  }

  -- The audit log behind a version: only if the version was stored and JSON encodes the rule.
  abbrev audit_after :
      Call → FilteringRule → String → Option Fields → Option Err × World db mongo → World db mongo
  audit_after call rule action old_value (some e, w) = w
  audit_after call rule action old_value (none, w) = elim (codec.rule_to_map rule) [
    | err e ↦ w
    | ok new_value ↦
        (create_audit_log db mongo codec call
          (build_audit_log call rule.id "filtering" action old_value (some new_value)) w).1
  ]

  unfoldable pub create_version_and_audit :
      Service → Call → FilteringRule → String → Option Fields → World db mongo → World db mongo
  create_version_and_audit s call rule action old_value w =
      if s.audit_enabled && s.has_versioning_repo
      then elim (rule_to_json codec rule) [
        | err e ↦ w
        | ok rule_json ↦
            audit_after call rule action old_value
              (create_version db mongo call (build_version call rule rule_json w) w)
      ]
      else w

  -- An error of the publication is dropped.
  abbrev pub sent_by : Outcome → World db mongo → World db mongo
  sent_by o w = record w { sent = w.sent ++ o.published }

  unfoldable pub publish_config_event :
      Service → Call → String → String → World db mongo → World db mongo
  publish_config_event s call action rule_id w = elim s.config_event_producer [
    | none ↦ w
    | some p ↦
        sent_by
          (publish_filtering_rule_event json call.event_uuid call.message_now p call.event_now
            action rule_id (get_changed_by call.ctx))
          w
  ]

  -- The same for an enrichment rule, which the methods write out.
  unfoldable pub publish_enrichment_event :
      Service → Call → String → String → World db mongo → World db mongo
  publish_enrichment_event s call action rule_id w = elim s.config_event_producer [
    | none ↦ w
    | some p ↦
        sent_by
          (publish_enrichment_rule_event json call.event_uuid call.message_now p call.event_now
            action rule_id (get_changed_by call.ctx))
          w
  ]
