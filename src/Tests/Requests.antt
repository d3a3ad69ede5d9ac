-- ===== src/Tests/Requests.antt =====
-- Two requests on an empty table, and one on a collection.
use yeti.Base.{◌≢◌, none, true, [], ◌∷◌, ◌==◌, if◌then◌else◌}
use yeti.Base.Int.{pos}
use yeti.Model.Value.{null, text, no_fields}
use yeti.Errors.Chain.{plain}
use yeti.Errors.Result.{ok, err}
use yeti.Providers.Query.{convert_source_config}
use yeti.Providers.Sources.{Cache, cache_fetch}
use yeti.Management.Requests.{
  UpdateFilteringRuleRequest, CreateEnrichmentRuleRequest, UpdateEnrichmentRuleRequest,
}
use yeti.Management.Validator.{validate_enrichment_rule}
use yeti.Management.Store.{Collection, EnrichmentRule}
use yeti.Management.Service.{Service}
use yeti.Management.EnrichmentRules.{update_enrichment_rule}
use yeti.Management.Sources.{update_enrichment_rule_unchecked}
use yeti.Tests.Enrichment as Enriching
use yeti.Tests.Providers.{texts}
use yeti.Base.{◌≡◌, refl, String, some, arith}
use yeti.Base.Dict.{lookup, insert}
use yeti.Cel.{new_evaluator, validate_filter_expression}
use yeti.Management.Validator.{validate_filtering_rule, validate_update_filtering_rule}
use yeti.Management.Store.{World, FilteringRule, Call}
use yeti.Management.Service.{
  get_enabled_value, publish_config_event, create_version_and_audit, build_audit_log,
}
use yeti.Management.Versioning
use yeti.Management.Repository
use yeti.Management.FilteringRules.{create_filtering_rule, update_filtering_rule_fields}
use yeti.Management.Runs.{creates}
use yeti.Management.Runs.Overlapping.{
  Overlapping, starts, steps, reads_update, writes_update, updating,
}
use yeti.Management.Overlap.{Update, begin_update, finish_update, overlapping_updates}
use yeti.Management.Invariants.{UsableExpression, Overlapping-UsableExpression}
use yeti.Tests.Fixtures.{words}
use yeti.Tests.Management as Events
use yeti.Tests.Table.{
  table_db, row, table_db-Serves, no_documents, codec, call, service, no_rules, creation, show,
  renaming, kept, keep,
}

abbrev after_creation : World table_db no_documents
after_creation =
    (create_filtering_rule words show table_db no_documents codec Events.json service call creation
      no_rules).1

-- Two requests read the rule, and then both write: one its name, the other its priority.
abbrev later : Call
later = record call { rule_now = 7 }

abbrev ranking : UpdateFilteringRuleRequest
ranking = record { name = none; expression = none; priority = some (pos 9); enabled = none }

abbrev renames : Update
renames = record { call = call; id = "r1"; req = renaming; rule = kept }

abbrev ranks : Update
ranks = record { call = later; id = "r1"; req = ranking; rule = kept }

abbrev ranked : FilteringRule
ranked = record kept { priority = pos 9; updated_at = 7 }

abbrev kept_renamed : FilteringRule
kept_renamed = record kept { name = "large"; updated_at = 5 }

abbrev kept_ranked : FilteringRule
kept_ranked = record ranked { updated_at = 6 }

abbrev after_renaming : World table_db no_documents
after_renaming =
    (finish_update words show table_db no_documents codec Events.json service renames
      after_creation).1

abbrev after_ranking : World table_db no_documents
after_ranking =
    (finish_update words show table_db no_documents codec Events.json service ranks
      after_renaming).1

reads :
    (c : Call) (req : UpdateFilteringRuleRequest)
    → validate_update_filtering_rule words show req ≡ none
    → begin_update words show table_db no_documents codec Events.json service c "r1" req
        after_creation
      ≡ (ok (record { call = c; id = "r1"; req = req; rule = kept }), after_creation)
unfolding begin_update create_filtering_rule Repository.create_filtering_rule
    Repository.get_filtering_rule validate_filtering_rule new_evaluator validate_filter_expression
    get_enabled_value lookup insert publish_config_event create_version_and_audit build_audit_log
    Versioning.rule_to_json Versioning.create_version Versioning.create_audit_log
reads c req admitted = rw (admitted, begin_update)

overlapped :
    Overlapping words show table_db no_documents codec Events.json service row no_rules
      after_ranking []
unfolding validate_update_filtering_rule
overlapped =
    writes_update [] [] ranks
      (writes_update (updating ranks ∷ []) [] renames
        (reads_update later "r1" ranking ranks
          (reads_update call "r1" renaming renames (steps starts (creates call creation no_rules))
            (reads call renaming refl))
          (reads later ranking refl))
        refl)
      refl

there : row after_ranking.rows "r1" ≡ some kept_ranked
unfolding finish_update create_filtering_rule Repository.create_filtering_rule
    Repository.update_filtering_rule Repository.get_filtering_rule validate_filtering_rule
    update_filtering_rule_fields new_evaluator validate_filter_expression get_enabled_value lookup
    insert publish_config_event create_version_and_audit build_audit_log Versioning.rule_to_json
    Versioning.create_version Versioning.create_audit_log
there = refl

stored_there : row after_creation.rows "r1" ≡ some kept
unfolding create_filtering_rule Repository.create_filtering_rule validate_filtering_rule
    new_evaluator validate_filter_expression get_enabled_value lookup insert publish_config_event
    create_version_and_audit build_audit_log Versioning.rule_to_json Versioning.create_version
    Versioning.create_audit_log
stored_there = refl

finishes :
    (finish_update words show table_db no_documents codec Events.json service renames after_creation
      ≡ (ok kept_renamed, after_renaming))
    × (finish_update words show table_db no_documents codec Events.json service ranks after_renaming
        ≡ (ok ranked, after_ranking))
unfolding finish_update create_filtering_rule Repository.create_filtering_rule
    Repository.update_filtering_rule Repository.get_filtering_rule validate_filtering_rule
    update_filtering_rule_fields new_evaluator validate_filter_expression get_enabled_value lookup
    insert publish_config_event create_version_and_audit build_audit_log Versioning.rule_to_json
    Versioning.create_version Versioning.create_audit_log
finishes = (refl, refl)

overlapping_updates_example :
    (kept_renamed ≡ record (update_filtering_rule_fields renaming kept) { updated_at = 5 })
    × (ranked ≡ record (update_filtering_rule_fields ranking kept) { updated_at = 7 })
    × (row after_ranking.rows "r1" ≡ (
        if "r1" == "r1"
        then some (record ranked { updated_at = keep 7 })
        else row after_creation.rows "r1"))
unfolding validate_update_filtering_rule table_db-Serves
overlapping_updates_example =
    overlapping_updates words show table_db no_documents codec Events.json service row
      table_db-Serves call later "r1" renaming ranking after_creation after_creation after_creation
      after_renaming after_ranking renames ranks kept kept_renamed ranked "r1" stored_there refl
      (reads call renaming refl) (reads later ranking refl) finishes.0 finishes.1

nothing_before : (k : String) (r : FilteringRule) → row no_rules.rows k ≡ some r → ⊥
unfolding lookup
nothing_before k r h = ground arith

Overlapping-UsableExpression_example : UsableExpression words show kept_ranked.expression
Overlapping-UsableExpression_example =
    Overlapping-UsableExpression words show table_db no_documents codec Events.json service row
      table_db-Serves no_rules after_ranking [] (λ k r h. absurd (nothing_before k r h)) overlapped
      "r1" kept_ranked there

abbrev api_rule : EnrichmentRule
api_rule = Enriching.rule "skip_rule" null ""

-- A collection that holds this rule.
abbrev one_document : Collection
one_document = record no_documents {
  find_one = λ id u. ok (some api_rule);
  update_one = λ r u. (ok 1, u);
}

abbrev documents : World table_db one_document
documents = record {
  heap = no_rules.heap;
  rows = [];
  documents = tt;
  dedup_config = none;
  sent = [];
}

abbrev to_cache : UpdateEnrichmentRuleRequest
to_cache = record {
  name = none;
  field_to_enrich = none;
  source_type = some "cache";
  source_config = none;
  transformations = none;
  cache_ttl_seconds = none;
  error_handling = none;
  fallback_value = none;
  priority = none;
  enabled = none;
}

abbrev new_cache_rule : CreateEnrichmentRuleRequest
new_cache_rule = record {
  name = "users";
  field_to_enrich = "user";
  source_type = "cache";
  source_config = api_rule.source_config;
  transformations = [];
  cache_ttl_seconds = pos 60;
  error_handling = "";
  fallback_value = null;
  priority = pos 1;
  enabled = none;
}

abbrev keys : Cache
keys = record { State = Unit; get = λ k u. (ok none, u); unmarshal = λ s. ok no_fields }

abbrev over_mongo : Service
over_mongo = record service { has_enrichment_repo = true }

update_enrichment_rule_unchecked_example :
    ((r : EnrichmentRule) × ((update_enrichment_rule words show table_db one_document codec
          Events.json over_mongo call "r" to_cache documents).0
        ≡ ok r)
      × (r.source_type ≡ "cache")
      × (cache_fetch texts keys (convert_source_config r.source_config) (text "ann") tt
          ≡ (err (plain "key_pattern is required for cache provider"), tt)))
    × (validate_enrichment_rule words show new_cache_rule ≢ none)
update_enrichment_rule_unchecked_example =
    update_enrichment_rule_unchecked words show table_db one_document codec Events.json over_mongo
      call "r" to_cache documents api_rule 0 new_cache_rule texts keys (text "ann") tt refl refl
      refl refl refl refl refl refl refl refl refl
