-- ===== src/Management/Sources.antt =====
-- What an update of an enrichment rule leaves of its source.
use yeti.Base.{ℕ, suc, String, ◌≡◌, ◌≢◌, refl, true, none, some, arith, ◌==◌, eq_iff}
use yeti.Model.Value.{Value}
use yeti.Errors.Chain.{plain}
use yeti.Errors.Result.{ok, err}
use yeti.Cel.{CelLib}
use yeti.Providers.Query.{SourceConfig, convert_source_config}
use yeti.Providers.Sources.{Texts, Cache, cache_fetch}
use yeti.Management.Notifier.{Json}
use yeti.Management.Requests.{CreateEnrichmentRuleRequest, UpdateEnrichmentRuleRequest}
use yeti.Management.Validator.{
  is_cache_source, validate_enrichment_rule, validate_update_enrichment_rule,
}
use yeti.Management.Store.{Database, Collection, Codec, Call, World, EnrichmentRule}
use yeti.Management.EnrichmentRepository
use yeti.Management.Service.{Service}
use yeti.Management.EnrichmentRules.{updated_fields, update_enrichment_rule}

module _ (lib : CelLib) (show_nat : ℕ → String) (db : Database) (mongo : Collection) (codec : Codec)
    (json : Json) (s : Service) where
  cache_fetch_blank :
      (texts : Texts) (cache : Cache) (config : SourceConfig) (v : Value) (st : cache.State)
      → config.key_pattern ≡ ""
      → cache_fetch texts cache config v st
        ≡ (err (plain "key_pattern is required for cache provider"), st)
  unfolding cache_fetch
  cache_fetch_blank texts cache config v st h = ground (arith, eq_iff config.key_pattern "")

  validate_enrichment_rule_blank :
      (creation : CreateEnrichmentRuleRequest)
      → creation.source_type ≡ "cache"
      → creation.source_config.key_pattern ≡ ""
      → validate_enrichment_rule lib show_nat creation ≢ none
  unfolding validate_enrichment_rule
  validate_enrichment_rule_blank creation wrong no_pattern h =
      let cached : is_cache_source creation.source_type ≡ true = rw wrong refl in
      let blank : (creation.source_config.key_pattern == "") ≡ true = rw no_pattern refl in
      ground arith

  -- A request that only sets the source of a rule to "cache" is admitted for a rule without a key
  -- pattern, and stored if the statement finds the rule; then the provider fails for every value,
  -- although a new rule with that source and no key pattern is refused.
  pub update_enrichment_rule_unchecked :
      (call : Call) (id : String) (req : UpdateEnrichmentRuleRequest) (w : World db mongo)
      (old : EnrichmentRule) (n : ℕ) (creation : CreateEnrichmentRuleRequest) (texts : Texts)
      (cache : Cache) (v : Value) (st : cache.State)
      → s.has_enrichment_repo ≡ true
      → req.source_type ≡ some "cache"
      → req.source_config ≡ none
      → req.transformations ≡ none
      → req.cache_ttl_seconds ≡ none
      → req.error_handling ≡ none
      → old.source_config.key_pattern ≡ ""
      → mongo.find_one id w.documents ≡ ok (some old)
      → (mongo.update_one
          (EnrichmentRepository.touched db mongo codec call (updated_fields req old))
          w.documents).0
        ≡ ok (suc n)
      → creation.source_type ≡ "cache"
      → creation.source_config.key_pattern ≡ ""
      → ((rule : EnrichmentRule) × ((update_enrichment_rule lib show_nat db mongo codec json s call
              id req w).0
            ≡ ok rule)
          × (rule.source_type ≡ "cache")
          × (cache_fetch texts cache (convert_source_config rule.source_config) v st
              ≡ (err (plain "key_pattern is required for cache provider"), st)))
        × (validate_enrichment_rule lib show_nat creation ≢ none)
  unfolding update_enrichment_rule validate_update_enrichment_rule convert_source_config
      EnrichmentRepository.get_enrichment_rule EnrichmentRepository.update_enrichment_rule
  update_enrichment_rule_unchecked call id req w old n creation texts cache v st has to same kept
        kept₁ kept₂ blank there done wrong no_pattern =
      let refused = validate_enrichment_rule_blank creation wrong no_pattern in
      (
        (
          EnrichmentRepository.touched db mongo codec call (updated_fields req old),
          ground arith,
          ground arith,
          rw same
              (cache_fetch_blank texts cache (convert_source_config old.source_config) v st blank),
        ),
        refused,
      )
