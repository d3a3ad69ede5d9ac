-- ===== src/Management/Store.antt =====
-- The state that internal/management/service.go works on. PostgreSQL, MongoDB, JSON and the broker
-- are parameters: `Database`, `Collection`, `Codec` and `Notifier.Json`.
use yeti.Base.{ℕ, String, Bool, Option, none, List}
use yeti.Base.Int.{ℤ}
use yeti.Model.Value.{Value, Fields}
use yeti.Errors.Chain.{App, Err, AppErr, to_err}
use yeti.Errors.Details.{Heap, with_detail}
use yeti.Errors.Result.{Result, err, Context}
use yeti.Errors.Rows.{Rows}
use yeti.Broker.Producer.{Sent}
use yeti.Filtering
use yeti.Enrichment.Types

-- The rows of the table `filtering_rules` and the documents of `enrichment_rules`, which the
-- filtering and the enrichment service read.
abbrev pub FilteringRule : Type 0
FilteringRule = Filtering.Rule

abbrev pub EnrichmentRule : Type 0
EnrichmentRule = Types.Rule

pub record DeduplicationConfig : Type 0 where
  pub hash_algorithm : String
  pub ttl_seconds : ℤ
  pub on_redis_error : String
  pub fields_to_hash : List String

pub record RuleVersion : Type 0 where
  pub id : String
  pub rule_id : String
  pub rule_type : String
  pub rule_data : String
  pub version : ℕ
  pub changed_by : String
  pub change_reason : String
  pub created_at : ℕ

-- A nil pointer or map is `none`.
pub record AuditLog : Type 0 where
  pub id : String
  pub rule_id : Option String
  pub rule_type : String
  pub action : String
  pub old_value : Option Fields
  pub new_value : Option Fields
  pub changed_by : String
  pub change_reason : String
  pub ip_address : String
  pub timestamp : ℕ

-- The statements that the repositories send to PostgreSQL. A row that is not there is `none`; the
-- inner result of an update and of a deletion is `RowsAffected`. `unique_violation` says that an
-- error is a `*pq.Error` with the code 23505.
pub record Database : Type 1 where
  pub State : Type 0
  pub insert_rule : FilteringRule → State → Option Err × State
  pub select_rule : String → State → Result (Option FilteringRule)
  pub select_rules : State → Result (Rows FilteringRule)
  pub update_rule : FilteringRule → State → Result (Result ℕ) × State
  pub delete_rule : String → State → Result (Result ℕ) × State
  pub insert_version : RuleVersion → State → Option Err × State
  pub select_versions : String → State → Result (Rows RuleVersion)
  pub next_version : String → State → Result ℕ
  pub insert_log : AuditLog → State → Option Err × State
  pub select_logs_by_rule : String → ℤ → State → Result (Rows AuditLog)
  pub select_logs_by_type : String → ℤ → State → Result (Rows AuditLog)
  pub select_logs : ℤ → State → Result (Rows AuditLog)
  pub unique_violation : Err → Bool

-- The operations on the collection of MongoDB. A missing document is `none`; the number is that of
-- the matched, or of the deleted, documents. The inner result of `find` is that of `cursor.All`.
pub record Collection : Type 1 where
  pub State : Type 0
  pub insert_one : EnrichmentRule → State → Option Err × State
  pub find_one : String → State → Result (Option EnrichmentRule)
  pub find : State → Result (Result (List EnrichmentRule))
  pub update_one : EnrichmentRule → State → Result ℕ × State
  pub delete_one : String → State → Result ℕ × State
  pub is_duplicate_key : Err → Bool

-- Go's `strings.Contains`, and JSON: `rule_to_map` is `json.Marshal` and `json.Unmarshal` of a rule,
-- `marshal` is `json.Marshal` of a map.
pub record Codec : Type 0 where
  pub contains : String → String → Bool
  pub rule_to_map : FilteringRule → Result Fields
  pub marshal : Fields → Result String

-- What one request brings: its context, and the new UUIDs and the times that it reads on its way.
pub record Call : Type 0 where
  pub ctx : Context
  pub rule_uuid : String
  pub version_uuid : String
  pub log_uuid : String
  pub event_uuid : String
  pub rule_now : ℕ
  pub version_now : ℕ
  pub log_now : ℕ
  pub event_now : ℕ
  pub message_now : ℕ

pub record World (db : Database) (mongo : Collection) : Type 0 where
  pub heap : Heap
  pub rows : Database.State db
  pub documents : Collection.State mongo
  pub dedup_config : Option DeduplicationConfig
  pub sent : List Sent

-- A method: its result, and the world that it leaves, also when it fails.
abbrev pub Action : Type 0 → Type 0 → Type 0
Action W A = W → Result A × W

-- `e.WithDetail(key, v)` as the result.
abbrev pub fail_detail :
    {db : Database} {mongo : Collection} {A : Type 0}
    → AppErr
    → String
    → Value
    → Action (World db mongo) A
fail_detail e key v w =
    let (d, h) = with_detail e key v w.heap in (err (to_err d), record w { heap = h })

abbrev pub bare : App → AppErr
bare a = record { base = a; cause = none }
