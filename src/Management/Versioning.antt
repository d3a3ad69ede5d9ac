-- ===== src/Management/Versioning.antt =====
-- internal/management/versioning.go: the versions of the rules, and the audit log.
use yeti.Base.{ℕ, String, Option, none, some, List, ◌==◌, if◌then◌else◌, nat_eq}
use yeti.Base.Int.{ℤ}
use yeti.Model.Value.{text, int, boolean, time, Fields, no_fields, insert}
use yeti.Errors.Chain.{Err, wrap}
use yeti.Errors.Result.{Result, ok, err, ◌>>=◌, wrap_err}
use yeti.Errors.Rows.{Rows, scan_rows}
use yeti.Management.Store.{
  Database, Collection, Codec, Call, World, FilteringRule, RuleVersion, AuditLog, Action,
}

-- The map of a rule that is kept as the data of a version.
unfoldable pub rule_data : FilteringRule → Fields
rule_data rule = insert "updated_at" (time rule.updated_at) (
    insert "created_at" (time rule.created_at) (
      insert "enabled" (boolean rule.enabled) (
        insert "priority" (int rule.priority) (
          insert "expression" (text rule.expression)
            (insert "name" (text rule.name) (insert "id" (text rule.id) no_fields))))))

unfoldable pub rule_to_json : Codec → FilteringRule → Result String
rule_to_json codec rule = codec.marshal (rule_data rule)

module _ (db : Database) (mongo : Collection) where
  -- The error of an insertion, if any, under a prefix.
  abbrev failed_with : String → Option Err → Option Err
  failed_with prefix none = none
  failed_with prefix (some e) = some (wrap prefix e)

  abbrev pub stamped_version : Call → RuleVersion → RuleVersion
  stamped_version call v = record v {
    id = if v.id == "" then call.version_uuid else v.id;
    created_at = if nat_eq v.created_at 0 then call.version_now else v.created_at;
  }

  unfoldable pub create_version : Call → RuleVersion → World db mongo → Option Err × World db mongo
  create_version call v w =
      let (failure, rows) = db.insert_version (stamped_version call v) w.rows in
      (failed_with "failed to create rule version" failure, record w { rows = rows })

  unfoldable pub get_versions : String → Action (World db mongo) (List RuleVersion)
  get_versions rule_id w = (
    (wrap_err "failed to query versions" (db.select_versions rule_id w.rows)
        >>= scan_rows "failed to scan version"),
    w,
  )

  -- A failure of the query counts as version 1.
  unfoldable pub get_next_version : String → World db mongo → ℕ
  get_next_version rule_id w = elim (db.next_version rule_id w.rows) [ ok n ↦ n | err e ↦ 1 ]

  abbrev pub stamped_log : Call → AuditLog → AuditLog
  stamped_log call l = record l {
    id = if l.id == "" then call.log_uuid else l.id;
    timestamp = if nat_eq l.timestamp 0 then call.log_now else l.timestamp;
  }

  -- The error of encoding a value that is not nil.
  abbrev pub encode_failure : Codec → String → Option Fields → Option Err
  encode_failure codec prefix none = none
  encode_failure codec prefix (some d) = elim (codec.marshal d) [
    | ok bytes ↦ none
    | err e ↦ some (wrap prefix e)
  ]

  abbrev inserted_log : AuditLog → World db mongo → Option Err × World db mongo
  inserted_log l w =
      let (failure, rows) = db.insert_log l w.rows in
      (failed_with "failed to create audit log" failure, record w { rows = rows })

  unfoldable pub create_audit_log :
      Codec → Call → AuditLog → World db mongo → Option Err × World db mongo
  create_audit_log codec call l w =
      elim (encode_failure codec "failed to marshal old value" l.old_value) [
        | some e ↦ (some e, w)
        | none ↦ elim (encode_failure codec "failed to marshal new value" l.new_value) [
          | some e ↦ (some e, w)
          | none ↦ inserted_log (stamped_log call l) w
        ]
      ]

  -- The query for the arguments. Decoding the values of a log is a part of the scan.
  abbrev select_logs : Option String → String → ℤ → db.State → Result (Rows AuditLog)
  select_logs (some rule_id) rule_type limit rows = db.select_logs_by_rule rule_id limit rows
  select_logs none rule_type limit rows =
      if rule_type == ""
      then db.select_logs limit rows
      else db.select_logs_by_type rule_type limit rows

  unfoldable pub get_audit_logs :
      Option String → String → ℤ → Action (World db mongo) (List AuditLog)
  get_audit_logs rule_id rule_type limit w = (
    (wrap_err "failed to query audit logs" (select_logs rule_id rule_type limit w.rows)
        >>= scan_rows "failed to scan audit log"),
    w,
  )
