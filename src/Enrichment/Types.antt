-- ===== src/Enrichment/Types.antt =====
-- internal/enrichment/models.go, and what the service uses of Redis, JSON and the providers.
use yeti.Base.{ℕ, String, Bool, true, false, Option, List}
use yeti.Base.Int.{ℤ}
use yeti.Base.Dict.{Dict}
use yeti.Model.Value.{Value, null, Fields}
use yeti.Errors.Chain.{Err}
use yeti.Errors.Result.{Result}
use yeti.Cel.{CelLib}

pub record SourceConfig : Type 0 where
  pub url : String
  pub method : String
  pub headers : Dict String
  pub timeout_ms : ℤ
  pub retry_count : ℤ
  pub database : String
  pub collection : String
  pub query : Option Fields
  pub field_name : String
  pub key_pattern : String
  pub cache_type : String

-- A default of nil is `null`.
pub record Transformation : Type 0 where
  pub source_path : String
  pub target_field : String
  pub expression : String
  pub default : Value

pub record Rule : Type 0 where
  pub id : String
  pub name : String
  pub field_to_enrich : String
  pub source_type : String
  pub source_config : SourceConfig
  pub transformations : List Transformation
  pub cache_ttl_seconds : ℤ
  pub error_handling : String
  pub fallback_value : Value
  pub priority : ℤ
  pub enabled : Bool
  pub created_at : ℕ
  pub updated_at : ℕ

-- The world that the service works on. `cache_get` is `none` for a miss and for an error, which the
-- service treats alike; an error of `cache_set` or of `marshal` is only logged. `show` is `%v`, and
-- `describe` is `err.Error()`. A provider may be wrapped in a circuit breaker.
pub record World : Type 1 where
  pub State : Type 0
  pub cache_get : String → State → Option String × State
  pub cache_set : String → String → ℤ → State → State
  pub marshal : Fields → Option String
  pub unmarshal : String → Result Fields
  pub show : Value → String
  pub describe : Err → String
  pub providers : String → Option (SourceConfig → Value → State → Result Fields × State)

-- `evaluator` is `none` where the service could not create it.
pub record Service (lib : CelLib) : Type 0 where
  pub rules : List Rule
  pub evaluator : Option (CelLib.Env lib)

abbrev pub is_null : Value → Bool
is_null null = true
is_null v = false
