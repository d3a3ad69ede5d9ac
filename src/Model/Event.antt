-- ===== src/Model/Event.antt =====
-- pkg/models/config_event.go: the events by which the management service announces a change.
use yeti.Base.{ℕ, String, Option}
use yeti.Model.Value.{Fields}

pub record ConfigUpdateEvent : Type 0 where
  pub event_type : String
  pub service_type : String
  pub rule_id : String
  pub action : String
  pub timestamp : ℕ
  pub changed_by : String
  pub metadata : Option Fields

abbrev pub event_type_filtering_rule_updated : String
event_type_filtering_rule_updated = "filtering_rule_updated"

abbrev pub event_type_enrichment_rule_updated : String
event_type_enrichment_rule_updated = "enrichment_rule_updated"

abbrev pub event_type_dedup_config_updated : String
event_type_dedup_config_updated = "dedup_config_updated"

abbrev pub action_create : String
action_create = "create"

abbrev pub action_update : String
action_update = "update"

abbrev pub action_delete : String
action_delete = "delete"

abbrev pub service_type_filtering : String
service_type_filtering = "filtering"

abbrev pub service_type_enrichment : String
service_type_enrichment = "enrichment"

abbrev pub service_type_deduplication : String
service_type_deduplication = "deduplication"
