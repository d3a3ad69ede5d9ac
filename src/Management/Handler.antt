-- ===== src/Management/Handler.antt =====
-- internal/management/handler.go: the HTTP handlers. Gin is a parameter: a handler gets what it reads
-- of the request, and answers what it writes. Logs are left out.
use yeti.Base.{ℕ, String, ◌||◌, Option, none, some, List, ◌==◌, if◌then◌else◌}
use yeti.Base.Int.{ℤ, pos, ltz, lez}
use yeti.Model.Value.{text, Fields, insert}
use yeti.Errors.Chain.{Err, app_of, err_validation, to_http_status, is_validation}
use yeti.Errors.Details.{to_error_response, error_text}
use yeti.Errors.Result.{Result, ok, err}
use yeti.Cel.{CelLib}
use yeti.Management.Notifier.{Json}
use yeti.Management.Requests.{
  CreateFilteringRuleRequest, UpdateFilteringRuleRequest, CreateEnrichmentRuleRequest,
  UpdateEnrichmentRuleRequest, UpdateDeduplicationConfigRequest,
}
use yeti.Management.Store.{
  Database, Collection, Codec, Call, World, FilteringRule, EnrichmentRule, DeduplicationConfig,
  RuleVersion, AuditLog,
}
use yeti.Management.Service.{Service}
use yeti.Management.FilteringRules.{
  create_filtering_rule, list_filtering_rules, get_filtering_rule, update_filtering_rule,
  delete_filtering_rule, get_rule_versions, get_audit_logs,
}
use yeti.Management.EnrichmentRules.{
  create_enrichment_rule, list_enrichment_rules, get_enrichment_rule, update_enrichment_rule,
  delete_enrichment_rule,
}
use yeti.Management.DedupSettings.{get_deduplication_config, update_deduplication_config}

-- `c.JSON(status, value)` of a value or of an error's response, and `c.Status(status)`.
pub data Reply (A : Type 0) : Type 0 where
  json : ℕ → A → Reply A
  json_error : ℕ → Fields → Reply A
  status : ℕ → Reply A

abbrev pub status_of : {A : Type 0} → Reply A → ℕ
status_of (json n a) = n
status_of (json_error n d) = n
status_of (status n) = n

-- `strconv.Atoi` is the parameter `atoi`; 100 and 1000 are `DefaultLimit` and `MaxLimit`.
unfoldable pub parse_limit : (String → Option ℤ) → String → ℤ
parse_limit atoi limit_str = if limit_str == "" then pos 100 else elim (atoi limit_str) [
  | none ↦ pos 100
  | some parsed ↦ if lez parsed (pos 0) || ltz (pos 1000) parsed then pos 100 else parsed
]

-- The pointer to the query's rule ID, if that is not empty.
abbrev pub rule_id_ptr : String → Option String
rule_id_ptr rule_id = if rule_id == "" then none else some rule_id

module _ (lib : CelLib) (show_nat : ℕ → String) (db : Database) (mongo : Collection) (codec : Codec)
    (codec_json : Json) (s : Service) (atoi : String → Option ℤ) where
  -- A handler: its reply, and the world that it leaves.
  abbrev pub Handles : Type 0 → Type 0
  Handles A = World db mongo → Reply A × World db mongo

  unfoldable pub handle_error : {A : Type 0} → Err → Handles A
  handle_error e w = (json_error (to_http_status e) (to_error_response w.heap e), w)

  -- The reply to what the service answers.
  abbrev pub replied : {A : Type 0} → ℕ → Result A × World db mongo → Reply A × World db mongo
  replied n (err e, w) = handle_error e w
  replied n (ok a, w) = (json n a, w)

  abbrev pub replied_empty : Result (Unit {0}) × World db mongo → Reply (Unit {0}) × World db mongo
  replied_empty (err e, w) = handle_error e w
  replied_empty (ok u, w) = (status 204, w)

  -- `c.ShouldBindJSON(&req)`, for the rest of a handler.
  abbrev pub bound : {R A : Type 0} → Result R → (R → Handles A) → Handles A
  bound (err e) rest w = (json_error 400 (to_error_response w.heap (app_of err_validation e)), w)
  bound (ok req) rest w = rest req w

  unfoldable pub list_rules : Call → Handles (List FilteringRule)
  list_rules call w =
      replied 200 (list_filtering_rules lib show_nat db mongo codec codec_json s call w)

  unfoldable pub create_rule : Call → Result CreateFilteringRuleRequest → Handles FilteringRule
  create_rule call body = bound body λ req w.
      replied 201 (create_filtering_rule lib show_nat db mongo codec codec_json s call req w)

  unfoldable pub get_rule : String → Handles FilteringRule
  get_rule id w = replied 200 (get_filtering_rule lib show_nat db mongo codec codec_json s id w)

  unfoldable pub update_rule :
      Call → String → Result UpdateFilteringRuleRequest → Handles FilteringRule
  update_rule call id body = bound body λ req w.
      replied 200 (update_filtering_rule lib show_nat db mongo codec codec_json s call id req w)

  unfoldable pub delete_rule : Call → String → Handles (Unit {0})
  delete_rule call id w =
      replied_empty (delete_filtering_rule lib show_nat db mongo codec codec_json s call id w)

  unfoldable pub get_versions_of_rule : String → Handles (List RuleVersion)
  get_versions_of_rule id w =
      replied 200 (get_rule_versions lib show_nat db mongo codec codec_json s id w)

  unfoldable pub get_rule_audit_logs : String → String → Handles (List AuditLog)
  get_rule_audit_logs id limit w = replied 200 (
      get_audit_logs lib show_nat db mongo codec codec_json s (some id) "filtering"
        (parse_limit atoi limit) w)

  unfoldable pub get_all_audit_logs : String → String → String → Handles (List AuditLog)
  get_all_audit_logs rule_id rule_type limit w = replied 200 (
      get_audit_logs lib show_nat db mongo codec codec_json s (rule_id_ptr rule_id) rule_type
        (parse_limit atoi limit) w)

  unfoldable pub list_stored_enrichment_rules : Handles (List EnrichmentRule)
  list_stored_enrichment_rules w =
      replied 200 (list_enrichment_rules lib show_nat db mongo codec codec_json s w)

  abbrev pub with_message : String → Fields → Fields
  with_message message response =
      if message == "" then response else insert "message" (text message) response

  -- A validation error is answered with its text under "message".
  abbrev pub replied_created :
      Result EnrichmentRule × World db mongo → Reply EnrichmentRule × World db mongo
  replied_created (ok rule, w) = (json 201 rule, w)
  replied_created (err e, w) =
      if is_validation e
      then (json_error 400 (with_message (error_text w.heap e) (to_error_response w.heap e)), w)
      else handle_error e w

  unfoldable pub create_stored_enrichment_rule :
      Call → Result CreateEnrichmentRuleRequest → Handles EnrichmentRule
  create_stored_enrichment_rule call body = bound body λ req w.
      replied_created (create_enrichment_rule lib show_nat db mongo codec codec_json s call req w)

  unfoldable pub get_stored_enrichment_rule : String → Handles EnrichmentRule
  get_stored_enrichment_rule id w =
      replied 200 (get_enrichment_rule lib show_nat db mongo codec codec_json s id w)

  unfoldable pub update_stored_enrichment_rule :
      Call → String → Result UpdateEnrichmentRuleRequest → Handles EnrichmentRule
  update_stored_enrichment_rule call id body = bound body λ req w.
      replied 200 (update_enrichment_rule lib show_nat db mongo codec codec_json s call id req w)

  unfoldable pub delete_stored_enrichment_rule : Call → String → Handles (Unit {0})
  delete_stored_enrichment_rule call id w =
      replied_empty (delete_enrichment_rule lib show_nat db mongo codec codec_json s call id w)

  unfoldable pub get_settings : Handles DeduplicationConfig
  get_settings w = replied 200 (get_deduplication_config db mongo codec codec_json s w)

  unfoldable pub update_settings :
      Call → Result UpdateDeduplicationConfigRequest → Handles DeduplicationConfig
  update_settings call body =
      bound body
        λ req w. replied 200 (update_deduplication_config db mongo codec codec_json s call req w)
