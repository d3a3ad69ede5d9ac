-- ===== src/Management/Audit.antt =====
-- internal/management/audit.go. Nothing of the program calls it.
use yeti.Base.{ℕ, String, ◌≢◌, Option, none, some, arith, ◌==◌, eq_iff, if◌then◌else◌, nat_eq}
use yeti.Errors.Chain.{Err, wrap}

-- `A` is the type of the values before and after a change.
pub record AuditLogEntry (A : Type 0) : Type 0 where
  pub id : String
  pub rule_id : String
  pub rule_type : String
  pub action : String
  pub old_value : A
  pub new_value : A
  pub changed_by : String
  pub change_reason : String
  pub ip_address : String
  pub timestamp : ℕ

-- The row that the statement inserts; a NULL is `none`.
pub record AuditRow : Type 0 where
  pub id : String
  pub rule_id : Option String
  pub rule_type : String
  pub action : String
  pub old_value : String
  pub new_value : String
  pub changed_by : String
  pub change_reason : Option String
  pub ip_address : Option String
  pub timestamp : ℕ

abbrev null_if_empty : String → Option String
null_if_empty s = if s == "" then none else some s

abbrev logged : {W : Type 0} → Option Err × W → Option Err × W
logged (none, w) = (none, w)
logged (some e, w) = (some (wrap "failed to log audit entry" e), w)

-- `marshal` is the JSON of a value, "" where there is none, and `insert` executes the statement.
module _ {A W : Type 0} (marshal : A → String) (insert : AuditRow → W → Option Err × W) where
  unfoldable pub audit_row : String → ℕ → AuditLogEntry A → AuditRow
  audit_row uuid now entry = record {
    id = if entry.id == "" then uuid else entry.id;
    rule_id = null_if_empty entry.rule_id;
    rule_type = entry.rule_type;
    action = entry.action;
    old_value = marshal entry.old_value;
    new_value = marshal entry.new_value;
    changed_by = entry.changed_by;
    change_reason = null_if_empty entry.change_reason;
    ip_address = null_if_empty entry.ip_address;
    timestamp = if nat_eq entry.timestamp 0 then now else entry.timestamp;
  }

  unfoldable pub log_rule_change : String → ℕ → AuditLogEntry A → W → Option Err × W
  log_rule_change uuid now entry w = logged (insert (audit_row uuid now entry) w)

  -- A row is given an ID and a time whatever the entry has, where the generated ones are set.
  pub audit_row_stamped :
      (uuid : String) (now : ℕ) (entry : AuditLogEntry A)
      → uuid ≢ ""
      → now ≢ 0
      → ((audit_row uuid now entry).id ≢ "") × ((audit_row uuid now entry).timestamp ≢ 0)
  unfolding audit_row
  audit_row_stamped uuid now entry h h' = ground (arith, eq_iff entry.id "")
