-- ===== src/Management/FilteringRules.antt =====
-- internal/management/service.go: the methods on filtering rules, and on their history. The copies of
-- rules that the methods return are the rules; a rule that a repository finds is never nil.
use yeti.Base.{ℕ, String, ◌&&◌, ◌||◌, Option, none, some, List, if◌then◌else◌, value_or}
use yeti.Base.Int.{ℤ, pos, ltz, lez}
use yeti.Model.Value.{text, Fields}
use yeti.Errors.Chain.{err_validation, err_internal, is_conflict}
use yeti.Errors.Result.{Result, ok, err}
use yeti.Cel.{CelLib}
use yeti.Management.Notifier.{Json}
use yeti.Management.Requests.{CreateFilteringRuleRequest, UpdateFilteringRuleRequest}
use yeti.Management.Validator.{validate_filtering_rule, validate_update_filtering_rule}
use yeti.Management.Store.{
  Database, Collection, Codec, Call, World, FilteringRule, RuleVersion, AuditLog, bare, fail_detail,
  Action,
}
use yeti.Management.Repository
use yeti.Management.Versioning
use yeti.Management.Service.{
  Service, wrapped, or_nil, get_enabled_value, handle_not_found_error, build_audit_log,
  create_version_and_audit, publish_config_event,
}

abbrev pub new_rule : CreateFilteringRuleRequest → FilteringRule
new_rule req = record {
  id = "";
  name = req.name;
  expression = req.expression;
  priority = req.priority;
  enabled = get_enabled_value req.enabled;
  created_at = 0;
  updated_at = 0;
}

unfoldable pub update_filtering_rule_fields :
    UpdateFilteringRuleRequest → FilteringRule → FilteringRule
update_filtering_rule_fields req rule = record rule {
  name = value_or req.name rule.name;
  expression = value_or req.expression rule.expression;
  priority = value_or req.priority rule.priority;
  enabled = value_or req.enabled rule.enabled;
}

module _ (lib : CelLib) (show_nat : ℕ → String) (db : Database) (mongo : Collection) (codec : Codec)
    (json : Json) (s : Service) where
  -- The versions, the log and the event behind a change.
  abbrev pub announced :
      Call → FilteringRule → String → Option Fields → World db mongo → World db mongo
  announced call rule action old_value w =
      publish_config_event db mongo codec json s call action rule.id
        (create_version_and_audit db mongo codec json s call rule action old_value w)

  abbrev pub created :
      Call → Result FilteringRule × World db mongo → Result FilteringRule × World db mongo
  created call (err e, w) = (err (if is_conflict e then e else wrapped err_internal e), w)
  created call (ok rule, w) = (ok rule, announced call rule "create" none w)

  unfoldable pub create_filtering_rule :
      Call → CreateFilteringRuleRequest → Action (World db mongo) FilteringRule
  create_filtering_rule call req w = elim (validate_filtering_rule lib show_nat req) [
    | some e ↦ (err (wrapped err_validation e), w)
    | none ↦ created call (Repository.create_filtering_rule db mongo codec call (new_rule req) w)
  ]

  -- `Wrap(err, ErrInternal)` of a failure.
  abbrev pub internal : {A : Type 0} → Result A × World db mongo → Result A × World db mongo
  internal (err e, w) = (err (wrapped err_internal e), w)
  internal (ok a, w) = (ok a, w)

  unfoldable pub list_filtering_rules : Call → Action (World db mongo) (List FilteringRule)
  list_filtering_rules call w = internal (Repository.list_filtering_rules db mongo codec call.ctx w)

  -- The rule that a repository finds, for the rest of a method.
  abbrev pub found :
      {A : Type 0}
      → String
      → Result FilteringRule × World db mongo
      → (FilteringRule → Action (World db mongo) A)
      → Result A × World db mongo
  found id (err e, w) rest = handle_not_found_error db mongo codec json e id w
  found id (ok rule, w) rest = rest rule w

  unfoldable pub get_filtering_rule : String → Action (World db mongo) FilteringRule
  get_filtering_rule id w =
      found id (Repository.get_filtering_rule db mongo codec id w) (λ rule w'. (ok rule, w'))

  abbrev pub updated :
      Call
      → Option Fields
      → Result FilteringRule × World db mongo
      → Result FilteringRule × World db mongo
  updated call old_value (err e, w) = (err (wrapped err_internal e), w)
  updated call old_value (ok rule, w) = (ok rule, announced call rule "update" old_value w)

  unfoldable pub update_filtering_rule :
      Call → String → UpdateFilteringRuleRequest → Action (World db mongo) FilteringRule
  update_filtering_rule call id req w = elim (validate_update_filtering_rule lib show_nat req) [
    | some e ↦ (err (wrapped err_validation e), w)
    | none ↦ found id (Repository.get_filtering_rule db mongo codec id w) λ rule w'.
        updated call (or_nil (codec.rule_to_map rule)) (
          Repository.update_filtering_rule db mongo codec call
            (update_filtering_rule_fields req rule) w')
  ]

  -- A deletion is logged, and makes no version.
  abbrev pub log_deletion : Call → String → Option Fields → World db mongo → World db mongo
  log_deletion call id old_value w =
      if s.audit_enabled && s.has_versioning_repo
      then (Versioning.create_audit_log db mongo codec call
          (build_audit_log db mongo codec json call id "filtering" "delete" old_value none) w).1
      else w

  abbrev pub deleted :
      Call
      → String
      → Option Fields
      → Result (Unit {0}) × World db mongo
      → Result (Unit {0}) × World db mongo
  deleted call id old_value (err e, w) = (err (wrapped err_internal e), w)
  deleted call id old_value (ok u, w) = (
    ok u,
    publish_config_event db mongo codec json s call "delete" id (log_deletion call id old_value w),
  )

  unfoldable pub delete_filtering_rule : Call → String → Action (World db mongo) (Unit {0})
  delete_filtering_rule call id w =
      found id (Repository.get_filtering_rule db mongo codec id w) λ rule w'.
        deleted call id (or_nil (codec.rule_to_map rule))
          (Repository.delete_filtering_rule db mongo codec id w')

  unfoldable pub get_rule_versions : String → Action (World db mongo) (List RuleVersion)
  get_rule_versions rule_id w =
      if s.has_versioning_repo
      then internal (Versioning.get_versions db mongo rule_id w)
      else fail_detail (bare err_internal) "message" (text "versioning not enabled") w

  -- `MaxLimit` and `DefaultLimit` of internal/constants.
  abbrev pub limited : ℤ → ℤ
  limited limit = if lez limit (pos 0) || ltz (pos 1000) limit then pos 100 else limit

  unfoldable pub get_audit_logs :
      Option String → String → ℤ → Action (World db mongo) (List AuditLog)
  get_audit_logs rule_id rule_type limit w =
      if s.has_versioning_repo
      then internal (Versioning.get_audit_logs db mongo rule_id rule_type (limited limit) w)
      else fail_detail (bare err_internal) "message" (text "audit logging not enabled") w
