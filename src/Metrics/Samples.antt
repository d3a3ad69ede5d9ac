-- ===== src/Metrics/Samples.antt =====
-- pkg/metrics/metrics.go: the functions that measure. `WithLabelValues` panics unless it is given as
-- many values as its variable has labels.
use yeti.Base.{ℕ, String, ◌≡◌, refl, List, [], ◌∷◌}
use yeti.Base.Int.{ℤ}
use yeti.Base.Lists.{length}
use yeti.Metrics.Collectors.{
  Collector, desc, database_connections_active, database_queries_total, database_query_duration,
  dedup_cache_size, dedup_processing_duration, enrichment_active_rules, enrichment_cache_hit_rate,
  enrichment_processing_duration, enrichment_provider_duration, enrichment_provider_requests_total,
  enrichment_rule_applications_total, enrichment_transformations_total, filtering_active_rules,
  filtering_processing_duration, filtering_rule_evaluations_total, kafka_consumer_lag,
  kafka_message_size_bytes, kafka_messages_read_total, kafka_messages_written_total,
  kafka_read_duration, kafka_write_duration, message_queue_size, message_queue_wait_duration,
}

-- `observe_duration d` observes the milliseconds of `d`, and `set_to_float` has the bits of a float64.
pub data Update : Type 0 where
  inc : Update
  set_to observe observe_duration : ℤ → Update
  set_to_float : ℕ → Update

pub record Sample : Type 0 where
  pub collector : Collector
  pub labels : List String
  pub update : Update

abbrev pub IsLabelled : Sample → Type 0
IsLabelled s = length s.labels ≡ length (desc s.collector).labels

unfoldable pub observe_filtering_duration : ℤ → String → Sample
observe_filtering_duration duration status = record {
  collector = filtering_processing_duration;
  labels = status ∷ [];
  update = observe_duration duration;
}

unfoldable pub observe_dedup_duration : ℤ → String → Sample
observe_dedup_duration duration status = record {
  collector = dedup_processing_duration;
  labels = status ∷ [];
  update = observe_duration duration;
}

unfoldable pub observe_enrichment_duration : ℤ → String → Sample
observe_enrichment_duration duration status = record {
  collector = enrichment_processing_duration;
  labels = status ∷ [];
  update = observe_duration duration;
}

unfoldable pub set_filtering_active_rules : ℤ → Sample
set_filtering_active_rules count = record {
  collector = filtering_active_rules;
  labels = [];
  update = set_to count;
}

unfoldable pub set_enrichment_active_rules : ℤ → Sample
set_enrichment_active_rules count = record {
  collector = enrichment_active_rules;
  labels = [];
  update = set_to count;
}

unfoldable pub set_dedup_cache_size : ℤ → Sample
set_dedup_cache_size size = record {
  collector = dedup_cache_size;
  labels = [];
  update = set_to size;
}

unfoldable pub set_enrichment_cache_hit_rate : ℕ → Sample
set_enrichment_cache_hit_rate rate = record {
  collector = enrichment_cache_hit_rate;
  labels = [];
  update = set_to_float rate;
}

unfoldable pub inc_kafka_messages_read : String → String → Sample
inc_kafka_messages_read service topic = record {
  collector = kafka_messages_read_total;
  labels = service ∷ topic ∷ [];
  update = inc;
}

unfoldable pub inc_kafka_messages_written : String → String → Sample
inc_kafka_messages_written service topic = record {
  collector = kafka_messages_written_total;
  labels = service ∷ topic ∷ [];
  update = inc;
}

unfoldable pub observe_kafka_message_size : String → String → String → ℤ → Sample
observe_kafka_message_size service topic direction size_bytes = record {
  collector = kafka_message_size_bytes;
  labels = service ∷ topic ∷ direction ∷ [];
  update = observe size_bytes;
}

unfoldable pub set_kafka_consumer_lag : (ℤ → String) → String → String → ℤ → ℤ → Sample
set_kafka_consumer_lag show_int service topic partition lag = record {
  collector = kafka_consumer_lag;
  labels = service ∷ topic ∷ show_int partition ∷ [];
  update = set_to lag;
}

unfoldable pub observe_kafka_read_duration : String → String → ℤ → Sample
observe_kafka_read_duration service topic duration = record {
  collector = kafka_read_duration;
  labels = service ∷ topic ∷ [];
  update = observe_duration duration;
}

unfoldable pub observe_kafka_write_duration : String → String → ℤ → Sample
observe_kafka_write_duration service topic duration = record {
  collector = kafka_write_duration;
  labels = service ∷ topic ∷ [];
  update = observe_duration duration;
}

unfoldable pub inc_filtering_rule_evaluation : String → String → String → Sample
inc_filtering_rule_evaluation rule_id rule_name result = record {
  collector = filtering_rule_evaluations_total;
  labels = rule_id ∷ rule_name ∷ result ∷ [];
  update = inc;
}

unfoldable pub inc_enrichment_rule_application : String → String → String → Sample
inc_enrichment_rule_application rule_id rule_name status = record {
  collector = enrichment_rule_applications_total;
  labels = rule_id ∷ rule_name ∷ status ∷ [];
  update = inc;
}

unfoldable pub inc_enrichment_transformation : String → String → String → Sample
inc_enrichment_transformation rule_id rule_name status = record {
  collector = enrichment_transformations_total;
  labels = rule_id ∷ rule_name ∷ status ∷ [];
  update = inc;
}

unfoldable pub inc_enrichment_provider_request : String → String → Sample
inc_enrichment_provider_request provider status = record {
  collector = enrichment_provider_requests_total;
  labels = provider ∷ status ∷ [];
  update = inc;
}

unfoldable pub observe_enrichment_provider_duration : String → ℤ → Sample
observe_enrichment_provider_duration provider duration = record {
  collector = enrichment_provider_duration;
  labels = provider ∷ [];
  update = observe_duration duration;
}

unfoldable pub inc_database_query : String → String → String → String → Sample
inc_database_query service database operation status = record {
  collector = database_queries_total;
  labels = service ∷ database ∷ operation ∷ status ∷ [];
  update = inc;
}

unfoldable pub observe_database_query_duration : String → String → String → ℤ → Sample
observe_database_query_duration service database operation duration = record {
  collector = database_query_duration;
  labels = service ∷ database ∷ operation ∷ [];
  update = observe_duration duration;
}

unfoldable pub set_database_connections_active : String → String → ℤ → Sample
set_database_connections_active service database count = record {
  collector = database_connections_active;
  labels = service ∷ database ∷ [];
  update = set_to count;
}

unfoldable pub set_message_queue_size : String → ℤ → Sample
set_message_queue_size service size = record {
  collector = message_queue_size;
  labels = service ∷ [];
  update = set_to size;
}

unfoldable pub observe_message_queue_wait_duration : String → ℤ → Sample
observe_message_queue_wait_duration service duration = record {
  collector = message_queue_wait_duration;
  labels = service ∷ [];
  update = observe_duration duration;
}

-- The functions of several labels, each of which gives one value for each of the labels.
pub labelled :
    (show_int : ℤ → String) (a b c d : String) (n m : ℤ)
    → IsLabelled (observe_filtering_duration n a)
      × IsLabelled (observe_dedup_duration n a)
      × IsLabelled (observe_enrichment_duration n a)
      × IsLabelled (inc_kafka_messages_read a b)
      × IsLabelled (inc_kafka_messages_written a b)
      × IsLabelled (observe_kafka_message_size a b c n)
      × IsLabelled (set_kafka_consumer_lag show_int a b n m)
      × IsLabelled (observe_kafka_read_duration a b n)
      × IsLabelled (observe_kafka_write_duration a b n)
      × IsLabelled (inc_filtering_rule_evaluation a b c)
      × IsLabelled (inc_enrichment_rule_application a b c)
      × IsLabelled (inc_enrichment_transformation a b c)
      × IsLabelled (inc_enrichment_provider_request a b)
      × IsLabelled (observe_enrichment_provider_duration a n)
      × IsLabelled (inc_database_query a b c d)
      × IsLabelled (observe_database_query_duration a b c n)
      × IsLabelled (set_database_connections_active a b n)
      × IsLabelled (set_message_queue_size a n)
      × IsLabelled (observe_message_queue_wait_duration a n)
unfolding desc observe_filtering_duration observe_dedup_duration observe_enrichment_duration
    inc_kafka_messages_read inc_kafka_messages_written observe_kafka_message_size
    set_kafka_consumer_lag observe_kafka_read_duration observe_kafka_write_duration
    inc_filtering_rule_evaluation inc_enrichment_rule_application inc_enrichment_transformation
    inc_enrichment_provider_request observe_enrichment_provider_duration inc_database_query
    observe_database_query_duration set_database_connections_active set_message_queue_size
    observe_message_queue_wait_duration
labelled show_int a b c d n m = (
  refl, refl, refl, refl, refl, refl, refl, refl, refl, refl, refl, refl, refl, refl, refl, refl,
  refl, refl, refl,
)
