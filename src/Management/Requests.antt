-- ===== src/Management/Requests.antt =====
-- internal/management/models.go: the requests that are validated. A field that is a pointer in the
-- source is an `Option`.
use yeti.Base.{String, Bool, Option, List}
use yeti.Base.Int.{ℤ}
use yeti.Model.Value.{Value}
use yeti.Enrichment.Types.{SourceConfig, Transformation}

pub record CreateFilteringRuleRequest : Type 0 where
  pub name : String
  pub expression : String
  pub priority : ℤ
  pub enabled : Option Bool

pub record UpdateFilteringRuleRequest : Type 0 where
  pub name : Option String
  pub expression : Option String
  pub priority : Option ℤ
  pub enabled : Option Bool

pub record CreateEnrichmentRuleRequest : Type 0 where
  pub name : String
  pub field_to_enrich : String
  pub source_type : String
  pub source_config : SourceConfig
  pub transformations : List Transformation
  pub cache_ttl_seconds : ℤ
  pub error_handling : String
  pub fallback_value : Value
  pub priority : ℤ
  pub enabled : Option Bool

pub record UpdateEnrichmentRuleRequest : Type 0 where
  pub name : Option String
  pub field_to_enrich : Option String
  pub source_type : Option String
  pub source_config : Option SourceConfig
  pub transformations : Option (List Transformation)
  pub cache_ttl_seconds : Option ℤ
  pub error_handling : Option String
  pub fallback_value : Option Value
  pub priority : Option ℤ
  pub enabled : Option Bool

pub record UpdateDeduplicationConfigRequest : Type 0 where
  pub hash_algorithm : Option String
  pub ttl_seconds : Option ℤ
  pub on_redis_error : Option String
  pub fields_to_hash : Option (List String)
