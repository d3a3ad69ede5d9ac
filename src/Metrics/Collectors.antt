-- ===== src/Metrics/Collectors.antt =====
-- pkg/metrics/metrics.go: the variables, each with its name, its kind and its labels. The help texts
-- are left out.
use yeti.Base.{ℕ, String, List, [], ◌∷◌}

pub data Collector : Type 0 where
  filtering_messages_total deduplicate_messages_total enrichment_messages_total
        filtering_processing_duration dedup_processing_duration enrichment_processing_duration
        filtering_active_rules enrichment_active_rules dedup_cache_size enrichment_cache_hit_rate
        retry_attempts_total dlq_messages_total circuit_breaker_state circuit_breaker_requests
        circuit_breaker_failures rate_limit_requests_total fallback_usage_total
        kafka_messages_read_total kafka_messages_written_total kafka_message_size_bytes
        kafka_consumer_lag kafka_read_duration kafka_write_duration filtering_rule_evaluations_total
        enrichment_rule_applications_total enrichment_transformations_total
        enrichment_provider_requests_total enrichment_provider_duration database_queries_total
        database_query_duration database_connections_active message_queue_size
        message_queue_wait_duration :
      Collector

-- A histogram has the bounds of its buckets; they are whole numbers.
pub data Kind : Type 0 where
  counter gauge : Kind
  histogram : List ℕ → Kind

pub record Desc : Type 0 where
  pub name : String
  pub kind : Kind
  pub labels : List String

abbrev of : String → Kind → List String → Desc
of name kind labels = record { name = name; kind = kind; labels = labels }

unfoldable pub desc : Collector → Desc
desc filtering_messages_total = of "filtering_messages_total" counter ("status" ∷ [])
desc deduplicate_messages_total = of "dedup_messages_total" counter ("status" ∷ [])
desc enrichment_messages_total = of "enrichment_messages_total" counter ("status" ∷ [])
desc filtering_processing_duration =
    of "filtering_processing_duration_ms"
      (histogram (1 ∷ 5 ∷ 10 ∷ 25 ∷ 50 ∷ 100 ∷ 250 ∷ 500 ∷ 1000 ∷ 2500 ∷ 5000 ∷ [])) ("status" ∷ [])
desc dedup_processing_duration =
    of "dedup_processing_duration_ms"
      (histogram (1 ∷ 5 ∷ 10 ∷ 25 ∷ 50 ∷ 100 ∷ 250 ∷ 500 ∷ 1000 ∷ [])) ("status" ∷ [])
desc enrichment_processing_duration =
    of "enrichment_processing_duration_ms"
      (histogram (10 ∷ 25 ∷ 50 ∷ 100 ∷ 250 ∷ 500 ∷ 1000 ∷ 2500 ∷ 5000 ∷ 10000 ∷ [])) ("status" ∷ [])
desc filtering_active_rules = of "filtering_active_rules" gauge []
desc enrichment_active_rules = of "enrichment_active_rules" gauge []
desc dedup_cache_size = of "dedup_cache_size" gauge []
desc enrichment_cache_hit_rate = of "enrichment_cache_hit_rate" gauge []
desc retry_attempts_total = of "retry_attempts_total" counter ("service" ∷ "topic" ∷ [])
desc dlq_messages_total = of "dlq_messages_total" counter ("service" ∷ "topic" ∷ "reason" ∷ [])
desc circuit_breaker_state = of "circuit_breaker_state" gauge ("name" ∷ [])
desc circuit_breaker_requests = of "circuit_breaker_requests_total" counter ("name" ∷ "state" ∷ [])
desc circuit_breaker_failures = of "circuit_breaker_failures_total" counter ("name" ∷ [])
desc rate_limit_requests_total = of "rate_limit_requests_total" counter ("status" ∷ [])
desc fallback_usage_total =
    of "fallback_usage_total" counter ("service" ∷ "strategy" ∷ "reason" ∷ [])
desc kafka_messages_read_total = of "kafka_messages_read_total" counter ("service" ∷ "topic" ∷ [])
desc kafka_messages_written_total =
    of "kafka_messages_written_total" counter ("service" ∷ "topic" ∷ [])
desc kafka_message_size_bytes =
    of "kafka_message_size_bytes"
      (histogram (100 ∷ 500 ∷ 1000 ∷ 5000 ∷ 10000 ∷ 50000 ∷ 100000 ∷ 500000 ∷ []))
      ("service" ∷ "topic" ∷ "direction" ∷ [])
desc kafka_consumer_lag = of "kafka_consumer_lag" gauge ("service" ∷ "topic" ∷ "partition" ∷ [])
desc kafka_read_duration =
    of "kafka_read_duration_ms" (histogram (1 ∷ 5 ∷ 10 ∷ 25 ∷ 50 ∷ 100 ∷ 250 ∷ 500 ∷ 1000 ∷ []))
      ("service" ∷ "topic" ∷ [])
desc kafka_write_duration =
    of "kafka_write_duration_ms" (histogram (1 ∷ 5 ∷ 10 ∷ 25 ∷ 50 ∷ 100 ∷ 250 ∷ 500 ∷ 1000 ∷ []))
      ("service" ∷ "topic" ∷ [])
desc filtering_rule_evaluations_total =
    of "filtering_rule_evaluations_total" counter ("rule_id" ∷ "rule_name" ∷ "result" ∷ [])
desc enrichment_rule_applications_total =
    of "enrichment_rule_applications_total" counter ("rule_id" ∷ "rule_name" ∷ "status" ∷ [])
desc enrichment_transformations_total =
    of "enrichment_transformations_total" counter ("rule_id" ∷ "rule_name" ∷ "status" ∷ [])
desc enrichment_provider_requests_total =
    of "enrichment_provider_requests_total" counter ("provider" ∷ "status" ∷ [])
desc enrichment_provider_duration =
    of "enrichment_provider_duration_ms"
      (histogram (1 ∷ 5 ∷ 10 ∷ 25 ∷ 50 ∷ 100 ∷ 250 ∷ 500 ∷ 1000 ∷ 2500 ∷ 5000 ∷ []))
      ("provider" ∷ [])
desc database_queries_total =
    of "database_queries_total" counter ("service" ∷ "database" ∷ "operation" ∷ "status" ∷ [])
desc database_query_duration =
    of "database_query_duration_ms"
      (histogram (1 ∷ 5 ∷ 10 ∷ 25 ∷ 50 ∷ 100 ∷ 250 ∷ 500 ∷ 1000 ∷ 2500 ∷ 5000 ∷ []))
      ("service" ∷ "database" ∷ "operation" ∷ [])
desc database_connections_active =
    of "database_connections_active" gauge ("service" ∷ "database" ∷ [])
desc message_queue_size = of "message_queue_size" gauge ("service" ∷ [])
desc message_queue_wait_duration =
    of "message_queue_wait_duration_ms"
      (histogram (1 ∷ 5 ∷ 10 ∷ 25 ∷ 50 ∷ 100 ∷ 250 ∷ 500 ∷ 1000 ∷ [])) ("service" ∷ [])
