-- ===== src/Management/EnrichmentRules.antt =====
-- internal/management/service.go: the methods on enrichment rules.
use yeti.Base.{ℕ, String, Option, none, some, List, if◌then◌else◌, value_or}
use yeti.Model.Value.{text}
use yeti.Errors.Chain.{err_validation, err_internal, err_not_found, is_conflict, with_cause}
use yeti.Errors.Details.{error_text}
use yeti.Errors.Result.{Result, ok, err}
use yeti.Cel.{CelLib}
use yeti.Management.Notifier.{Json}
use yeti.Management.Requests.{CreateEnrichmentRuleRequest, UpdateEnrichmentRuleRequest}
use yeti.Management.Validator.{validate_enrichment_rule, validate_update_enrichment_rule}
use yeti.Management.Store.{
  Database, Collection, Codec, Call, World, EnrichmentRule, bare, fail_detail, Action,
}
use yeti.Management.EnrichmentRepository
use yeti.Management.Service.{Service, wrapped, get_enabled_value, publish_enrichment_event}

abbrev pub new_rule : CreateEnrichmentRuleRequest → EnrichmentRule
new_rule req = record {
  id = "";
  name = req.name;
  field_to_enrich = req.field_to_enrich;
  source_type = req.source_type;
  source_config = req.source_config;
  transformations = req.transformations;
  cache_ttl_seconds = req.cache_ttl_seconds;
  error_handling = req.error_handling;
  fallback_value = req.fallback_value;
  priority = req.priority;
  enabled = get_enabled_value req.enabled;
  created_at = 0;
  updated_at = 0;
}

abbrev pub updated_fields : UpdateEnrichmentRuleRequest → EnrichmentRule → EnrichmentRule
updated_fields req rule = record rule {
  name = value_or req.name rule.name;
  field_to_enrich = value_or req.field_to_enrich rule.field_to_enrich;
  source_type = value_or req.source_type rule.source_type;
  source_config = value_or req.source_config rule.source_config;
  transformations = value_or req.transformations rule.transformations;
  cache_ttl_seconds = value_or req.cache_ttl_seconds rule.cache_ttl_seconds;
  error_handling = value_or req.error_handling rule.error_handling;
  fallback_value = value_or req.fallback_value rule.fallback_value;
  priority = value_or req.priority rule.priority;
  enabled = value_or req.enabled rule.enabled;
}

module _ (lib : CelLib) (show_nat : ℕ → String) (db : Database) (mongo : Collection) (codec : Codec)
    (json : Json) (s : Service) where
  -- The rest of a method, behind the check that there is a repository.
  abbrev pub configured : {A : Type 0} → Action (World db mongo) A → Action (World db mongo) A
  configured rest w =
      if s.has_enrichment_repo
      then rest w
      else fail_detail (bare err_internal) "message" (text "enrichment repository not configured") w

  -- `Wrap(err, ErrInternal)` of a failure.
  abbrev pub internal : {A : Type 0} → Result A × World db mongo → Result A × World db mongo
  internal (err e, w) = (err (wrapped err_internal e), w)
  internal (ok a, w) = (ok a, w)

  abbrev pub created :
      Call → Result EnrichmentRule × World db mongo → Result EnrichmentRule × World db mongo
  created call (err e, w) = (err (if is_conflict e then e else wrapped err_internal e), w)
  created call (ok rule, w) =
      (ok rule, publish_enrichment_event db mongo codec json s call "create" rule.id w)

  unfoldable pub create_enrichment_rule :
      Call → CreateEnrichmentRuleRequest → Action (World db mongo) EnrichmentRule
  create_enrichment_rule call req w = elim (validate_enrichment_rule lib show_nat req) [
    | some e ↦
        fail_detail (with_cause (bare err_validation) e) "message" (text (error_text w.heap e)) w
    | none ↦
        configured
          (λ w'.
            created call
              (EnrichmentRepository.create_enrichment_rule db mongo codec call (new_rule req) w'))
          w
  ]

  unfoldable pub list_enrichment_rules : Action (World db mongo) (List EnrichmentRule)
  list_enrichment_rules =
      configured (λ w. internal (EnrichmentRepository.list_enrichment_rules db mongo codec w))

  -- The rule that the repository finds, for the rest of a method.
  abbrev pub found :
      {A : Type 0}
      → String
      → Result (Option EnrichmentRule) × World db mongo
      → (EnrichmentRule → Action (World db mongo) A)
      → Result A × World db mongo
  found id (err e, w) rest = (err (wrapped err_internal e), w)
  found id (ok none, w) rest = fail_detail (bare err_not_found) "id" (text id) w
  found id (ok (some rule), w) rest = rest rule w

  unfoldable pub get_enrichment_rule : String → Action (World db mongo) EnrichmentRule
  get_enrichment_rule id = configured (λ w.
      found id (EnrichmentRepository.get_enrichment_rule db mongo codec id w)
        (λ rule w'. (ok rule, w')))

  abbrev pub updated :
      Call → Result EnrichmentRule × World db mongo → Result EnrichmentRule × World db mongo
  updated call (err e, w) = (err (wrapped err_internal e), w)
  updated call (ok rule, w) =
      (ok rule, publish_enrichment_event db mongo codec json s call "update" rule.id w)

  unfoldable pub update_enrichment_rule :
      Call → String → UpdateEnrichmentRuleRequest → Action (World db mongo) EnrichmentRule
  update_enrichment_rule call id req w = elim (validate_update_enrichment_rule lib show_nat req) [
    | some e ↦ (err (wrapped err_validation e), w)
    | none ↦
        configured
          (λ w'.
            found id (EnrichmentRepository.get_enrichment_rule db mongo codec id w') λ rule w''.
              updated call (
                EnrichmentRepository.update_enrichment_rule db mongo codec call
                  (updated_fields req rule) w''))
          w
  ]

  abbrev pub deleted :
      Call → String → Result (Unit {0}) × World db mongo → Result (Unit {0}) × World db mongo
  deleted call id (err e, w) = (err (wrapped err_internal e), w)
  deleted call id (ok u, w) =
      (ok u, publish_enrichment_event db mongo codec json s call "delete" id w)

  unfoldable pub delete_enrichment_rule : Call → String → Action (World db mongo) (Unit {0})
  delete_enrichment_rule call id = configured (λ w.
      found id (EnrichmentRepository.get_enrichment_rule db mongo codec id w) λ rule w'.
        deleted call id (EnrichmentRepository.delete_enrichment_rule db mongo codec id w'))
