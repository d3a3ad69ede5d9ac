-- ===== src/Metrics/Registration.antt =====
-- pkg/metrics/metrics.go: the registrations, and those that each service makes when it starts. The
-- registry of package prometheus is a parameter.
use yeti.Base.{
  String, ◌≡◌, refl, Bool, true, false, ◌||◌, ◌&&◌, not, Option, none, some, List, [], ◌∷◌, ◌++◌,
  arith, ◌==◌, if◌then◌else◌, is_some, Bool-cases, inl, inr, ◌∙◌,
}
use yeti.Base.Lists.{one_of}
use yeti.App.Names.{Service, filtering, dedup, enrichment, management}
use yeti.Metrics.Collectors.{
  Collector, Desc, desc, filtering_messages_total, deduplicate_messages_total,
  enrichment_messages_total, filtering_processing_duration, dedup_processing_duration,
  enrichment_processing_duration, filtering_active_rules, enrichment_active_rules, dedup_cache_size,
  enrichment_cache_hit_rate, retry_attempts_total, dlq_messages_total, circuit_breaker_state,
  circuit_breaker_requests, circuit_breaker_failures, rate_limit_requests_total,
  fallback_usage_total, kafka_messages_read_total, kafka_messages_written_total,
  kafka_message_size_bytes, kafka_consumer_lag, kafka_read_duration, kafka_write_duration,
  filtering_rule_evaluations_total, enrichment_rule_applications_total,
  enrichment_transformations_total, enrichment_provider_requests_total,
  enrichment_provider_duration, database_queries_total, database_query_duration,
  database_connections_active, message_queue_size, message_queue_wait_duration,
}

-- The lists of what is registered, in order.
abbrev pub register_fallback_usage_total_once : List Collector
register_fallback_usage_total_once = fallback_usage_total ∷ []

abbrev pub register_broker_metrics : List Collector
register_broker_metrics =
    retry_attempts_total ∷ dlq_messages_total ∷ kafka_messages_read_total
    ∷ kafka_messages_written_total ∷ kafka_message_size_bytes ∷ kafka_consumer_lag
    ∷ kafka_read_duration ∷ kafka_write_duration ∷ []

abbrev pub register_circuit_breaker_metrics : List Collector
register_circuit_breaker_metrics =
    circuit_breaker_state ∷ circuit_breaker_requests ∷ circuit_breaker_failures ∷ []

abbrev pub register_management_metrics : List Collector
register_management_metrics =
    rate_limit_requests_total ∷ database_queries_total ∷ database_query_duration
    ∷ database_connections_active ∷ message_queue_size ∷ message_queue_wait_duration ∷ []

abbrev pub register_filtering_metrics : List Collector
register_filtering_metrics =
    filtering_messages_total ∷ filtering_processing_duration ∷ filtering_active_rules
    ∷ filtering_rule_evaluations_total ∷ register_fallback_usage_total_once

abbrev pub register_dedup_metrics : List Collector
register_dedup_metrics =
    deduplicate_messages_total ∷ dedup_processing_duration ∷ dedup_cache_size
    ∷ register_fallback_usage_total_once

abbrev pub register_enrichment_metrics : List Collector
register_enrichment_metrics =
    enrichment_messages_total ∷ enrichment_processing_duration ∷ enrichment_active_rules
    ∷ enrichment_cache_hit_rate ∷ enrichment_rule_applications_total
    ∷ enrichment_transformations_total ∷ enrichment_provider_requests_total
    ∷ enrichment_provider_duration ∷ register_fallback_usage_total_once

-- `breaker` is whether the circuit breaker is enabled.
abbrev if_enabled : Bool → List Collector
if_enabled breaker = if breaker then register_circuit_breaker_metrics else []

-- What the start of a service registers.
unfoldable pub registered_by : Service → Bool → List Collector
registered_by filtering breaker =
    register_filtering_metrics ++ (register_broker_metrics ++ if_enabled breaker)
registered_by dedup breaker =
    register_dedup_metrics ++ (register_broker_metrics ++ if_enabled breaker)
registered_by enrichment breaker =
    register_enrichment_metrics ++ (register_broker_metrics ++ if_enabled breaker)
registered_by management breaker = register_management_metrics ++ register_circuit_breaker_metrics

-- `MustRegister` of a registry; `none` is a panic.
pub record Registry : Type 1 where
  pub State : Type 0
  pub must_register : Desc → State → Option State

-- What is documented of it: it panics exactly for a name that is registered already.
pub record Documented (registry : Registry) : Type 0 where
  pub registered : registry.State → String → Bool
  pub taken :
      (d : Desc) (s : registry.State)
      → registered s d.name ≡ true
      → registry.must_register d s ≡ none
  pub added :
      (d : Desc) (s : registry.State)
      → registered s d.name ≡ false
      → (s' : registry.State) × (registry.must_register d s ≡ some s')
        × ((name : String) → registered s' name ≡ (name == d.name || registered s name))

module _ (registry : Registry) where
  unfoldable pub register_all : List Collector → registry.State → Option registry.State
  register_all [] s = some s
  register_all (c ∷ l) s = elim (registry.must_register (desc c) s) [
    | none ↦ none
    | some s' ↦ register_all l s'
  ]

  -- No name of the collectors is there twice, or among those seen before.
  abbrev pub distinct : List String → List Collector → Bool
  distinct seen [] = true
  distinct seen (c ∷ l) =
      let rest = distinct ((desc c).name ∷ seen) l in not (one_of (desc c).name seen) && rest

  module _ (doc : Documented registry) where
    -- The registry has the names of a list.
    abbrev pub Has : registry.State → List String → Type 0
    Has s seen = (name : String) → doc.registered s name ≡ one_of name seen

    register_all-distinct :
        (l : List Collector) (seen : List String) (s : registry.State)
        → Has s seen
        → is_some (register_all l s) ≡ distinct seen l
    unfolding register_all
    register_all-distinct [] seen s has = refl
    register_all-distinct (c ∷ l) seen s has = elim (Bool-cases (one_of (desc c).name seen)) [
      | inl twice ↦ ground (arith, doc.taken (desc c) s, has (desc c).name)
      | inr new ↦
          let (s', done, names) = doc.added (desc c) s (ground (arith, has (desc c).name)) in
          ground (
            arith,
            register_all-distinct l ((desc c).name ∷ seen) s'
                (λ name. ground (arith, names name, has name)),
          )
    ]

    registered_by-distinct :
        (service : Service) (breaker : Bool) → distinct [] (registered_by service breaker) ≡ true
    unfolding registered_by desc
    registered_by-distinct filtering true = refl
    registered_by-distinct filtering false = refl
    registered_by-distinct dedup true = refl
    registered_by-distinct dedup false = refl
    registered_by-distinct enrichment true = refl
    registered_by-distinct enrichment false = refl
    registered_by-distinct management breaker = refl

    -- No service panics when it registers what it measures in a registry that has nothing yet, with the
    -- circuit breaker or without.
    pub registered_by_fits :
        (service : Service) (breaker : Bool) (s : registry.State)
        → Has s []
        → is_some (register_all (registered_by service breaker) s) ≡ true
    registered_by_fits service breaker s has =
        register_all-distinct (registered_by service breaker) [] s has
        ∙ registered_by-distinct service breaker
