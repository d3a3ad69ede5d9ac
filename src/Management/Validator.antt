-- ===== src/Management/Validator.antt =====
-- internal/management/validator.go. `show_int` is `%d`; errors are the returned errors.
use yeti.Base.{
  ℕ, suc, String, Bool, false, ◌&&◌, ◌||◌, not, Option, none, some, List, [], ◌∷◌, ◌==◌, ◌<>◌,
  if◌then◌else◌, is_some, value_or,
}
use yeti.Base.Int.{pos, ltz, lez}
use yeti.Base.Lists.{is_empty, one_of}
use yeti.Errors.Chain.{Err, plain, wrap}
use yeti.Errors.Result.{ok, err}
use yeti.Cel.{
  CelLib, new_evaluator, validate_expression, validate_transform_expression,
  validate_filter_expression,
}
use yeti.Enrichment.Types.{Transformation}
use yeti.Management.Requests.{
  CreateFilteringRuleRequest, UpdateFilteringRuleRequest, CreateEnrichmentRuleRequest,
  UpdateEnrichmentRuleRequest, UpdateDeduplicationConfigRequest,
}

-- `if bad { return fmt.Errorf(message) }` before the rest.
abbrev pub refuse : Bool → String → Option Err → Option Err
refuse bad message rest = if bad then some (plain message) else rest

-- `if err != nil { return fmt.Errorf("context: %w", err) }` before the rest.
abbrev pub or_wrapped : Option Err → String → Option Err → Option Err
or_wrapped none context rest = rest
or_wrapped (some e) context rest = some (wrap context e)

-- The value of a pointer that is not nil, tested.
abbrev pub set_and : {A : Type 0} → Option A → (A → Bool) → Bool
set_and none test = false
set_and (some a) test = test a

abbrev pub valid_source_types : List String
valid_source_types = "api" ∷ "database" ∷ "mongodb" ∷ "postgresql" ∷ "cache" ∷ "redis" ∷ []

abbrev pub valid_error_handling : List String
valid_error_handling = "skip_field" ∷ "skip_rule" ∷ "fail" ∷ []

abbrev pub valid_hash_algorithms : List String
valid_hash_algorithms = "md5" ∷ "sha256" ∷ []

abbrev pub valid_on_redis_error : List String
valid_on_redis_error = "allow" ∷ "filter_out" ∷ []

-- Whether a source reads a database, or a cache.
abbrev pub is_database_source : String → Bool
is_database_source t = t == "database" || (t == "mongodb" || t == "postgresql")

abbrev pub is_cache_source : String → Bool
is_cache_source t = t == "cache" || t == "redis"

-- The loop over the transformations, from index `i` on, with the validation of one expression.
unfoldable pub validate_transformations :
    (ℕ → String) → (String → Option Err) → ℕ → List Transformation → Option Err
validate_transformations show_nat validate i [] = none
validate_transformations show_nat validate i (trans ∷ transformations) =
    let later = validate_transformations show_nat validate (suc i) transformations in
    if trans.expression == ""
    then later
    else or_wrapped (validate trans.expression)
        ("invalid CEL expression in transformation[" <> show_nat i <> "]") later

module _ (lib : CelLib) (show_nat : ℕ → String) where
  open lib use {Env}

  -- The evaluator that a function creates, for the rest of it.
  abbrev with_evaluator : (Env → Option Err) → Option Err
  with_evaluator use_it = elim (new_evaluator lib) [
    | ok env ↦ use_it env
    | err e ↦ some (wrap "failed to create CEL evaluator" e)
  ]

  unfoldable pub validate_filtering_rule : CreateFilteringRuleRequest → Option Err
  validate_filtering_rule req = refuse (req.name == "") "name is required" (
      refuse (req.expression == "") "expression is required" (
        with_evaluator λ env.
          or_wrapped (validate_filter_expression lib env req.expression) "invalid CEL expression"
            none))

  unfoldable pub validate_update_filtering_rule : UpdateFilteringRuleRequest → Option Err
  validate_update_filtering_rule req = elim req.expression [
    | none ↦ none
    | some expression ↦
        if expression == ""
        then none
        else with_evaluator λ env.
          or_wrapped (validate_filter_expression lib env expression) "invalid CEL expression" none
  ]

  unfoldable pub validate_enrichment_rule : CreateEnrichmentRuleRequest → Option Err
  validate_enrichment_rule req = refuse (req.name == "") "name is required" (
      refuse (req.field_to_enrich == "") "field_to_enrich is required" (
        refuse (not (one_of req.source_type valid_source_types))
          ("invalid source_type: " <> req.source_type
            <> ". Allowed: api, database, mongodb, postgresql, cache, redis")
          (refuse (req.source_type == "api" && req.source_config.url == "")
            "source_config.url is required for api source type"
            (refuse (is_database_source req.source_type && req.source_config.collection == "")
              "source_config.collection is required for database source type"
              (refuse
                (is_database_source req.source_type
                  && (not (is_some req.source_config.query) && req.source_config.field_name == ""))
                "either source_config.query or source_config.field is required for database source type"
                (refuse (is_cache_source req.source_type && req.source_config.key_pattern == "")
                  "source_config.key_pattern is required for cache source type"
                  (refuse
                    (not (req.error_handling == "")
                      && not (one_of req.error_handling valid_error_handling))
                    ("invalid error_handling: " <> req.error_handling
                      <> ". Allowed: skip_field, skip_rule, fail")
                    (refuse (ltz req.cache_ttl_seconds (pos 0))
                      "cache_ttl_seconds must be non-negative"
                      (with_evaluator λ env.
                        validate_transformations show_nat (validate_transform_expression lib) 0
                          req.transformations)))))))))

  abbrev validate_new_transformations : Option (List Transformation) → Option Err
  validate_new_transformations none = none
  validate_new_transformations (some transformations) =
      with_evaluator
        λ env. validate_transformations show_nat (validate_expression lib env) 0 transformations

  unfoldable pub validate_update_enrichment_rule : UpdateEnrichmentRuleRequest → Option Err
  validate_update_enrichment_rule req =
      let source_type = value_or req.source_type "" in
      let error_handling = value_or req.error_handling "" in
      refuse (set_and req.source_type λ t. not (one_of t valid_source_types))
        ("invalid source_type: " <> source_type <> ". Allowed: api, database, cache")
        (refuse (set_and req.error_handling λ h. not (one_of h valid_error_handling))
          ("invalid error_handling: " <> error_handling <> ". Allowed: skip_field, skip_rule, fail")
          (refuse (set_and req.cache_ttl_seconds λ n. ltz n (pos 0))
            "cache_ttl_seconds must be non-negative"
            (validate_new_transformations req.transformations)))

unfoldable pub validate_deduplication_config : UpdateDeduplicationConfigRequest → Option Err
validate_deduplication_config req =
    refuse (set_and req.hash_algorithm λ a. not (one_of a valid_hash_algorithms))
      ("invalid hash_algorithm: " <> value_or req.hash_algorithm "" <> ". Allowed: md5, sha256")
      (refuse (set_and req.on_redis_error λ v. not (one_of v valid_on_redis_error))
        ("invalid on_redis_error: "
          <> value_or req.on_redis_error ""
          <> ". Allowed: allow, filter_out")
        (refuse (set_and req.ttl_seconds λ n. lez n (pos 0)) "ttl_seconds must be positive" (
          refuse (set_and req.fields_to_hash λ l. is_empty l) "fields_to_hash cannot be empty"
            none)))
