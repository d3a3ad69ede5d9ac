-- ===== src/Tests/Table.antt =====
-- A table of filtering rules by their IDs, and the rest of what the management service works on.
use yeti.Base.{
  ℕ, refl, String, true, false, Option, none, some, [], arith, eq_iff, ◌==◌, Option-cases, inl, inr,
  Bool, eq_refl, ◌*◌,
}
use Prim.Native.Nat.{◌/◌}
use yeti.Base.Int.{pos}
use yeti.Base.Int
use yeti.Base.Dict.{Dict, lookup, insert, erase, lookup-insert, lookup-erase}
use yeti.Model.Value.{no_fields}
use yeti.Errors.Result.{Result, ok}
use yeti.Errors.Rows.{end}
use yeti.Management.Requests.{CreateFilteringRuleRequest, UpdateFilteringRuleRequest}
use yeti.Management.Store.{Database, Collection, Codec, Call, World, FilteringRule}
use yeti.Management.Service.{Service}
use yeti.Management.Stored.{Serves, as_stored, set_columns}
use yeti.Tests.Fixtures.{live}
use yeti.Tests.Management.{notifier}

abbrev pub Table : Type 0
Table = Dict FilteringRule

-- The precision of the times in the table is 2.
abbrev pub keep : ℕ → ℕ
keep t = t / 2 * 2

abbrev pub denotes : String → String → Bool
denotes id k = id == k

abbrev pub update_row : FilteringRule → Table → Result (Result ℕ) × Table
update_row r table = elim (lookup r.id table) [
  | none ↦ (ok (ok 0), table)
  | some old ↦ (ok (ok 1), insert r.id (set_columns keep r old) table)
]

abbrev pub table_db : Database
table_db = record {
  State = Table;
  insert_rule = λ r table. (none, insert r.id (as_stored keep r.id r) table);
  select_rule = λ k table. ok (lookup k table);
  select_rules = λ table. ok end;
  update_rule = update_row;
  delete_rule = λ id table. (ok (ok 1), erase id table);
  insert_version = λ v table. (none, table);
  select_versions = λ id table. ok end;
  next_version = λ id table. ok 1;
  insert_log = λ l table. (none, table);
  select_logs_by_rule = λ id limit table. ok end;
  select_logs_by_type = λ kind limit table. ok end;
  select_logs = λ limit table. ok end;
  unique_violation = λ e. false;
}

abbrev pub row : Table → String → Option FilteringRule
row table k = lookup k table

unfoldable pub table_db-Serves : Serves table_db row
table_db-Serves = record {
  keep = keep;
  denotes = denotes;
  at_key = λ k j table r there. refl;
  select = λ id k table is. ground (arith, eq_iff id k);
  selects_key = λ id table. inl (id, eq_refl id);
  inserts_key = λ r table table' h. (r.id, eq_refl r.id);
  inserted = λ r table table' k h.
      ground (arith, eq_iff r.id k, lookup-insert r.id k (as_stored keep r.id r) table);
  insert_failed = λ r table table' e h. absurd (ground arith);
  updated = λ r table table' n k h. elim (Option-cases (lookup r.id table)) [
    | inl missing ↦ ground (arith, eq_iff r.id k)
    | inr (old, there) ↦
        ground (arith, eq_iff r.id k, lookup-insert r.id k (set_columns keep r old) table)
  ];
  update_failed = λ r table table' e h. elim (Option-cases (lookup r.id table)) [
    | inl missing ↦ absurd (ground arith)
    | inr (old, there) ↦ absurd (ground arith)
  ];
  deleted = λ id table table' n k h. ground (arith, lookup-erase id k table);
  delete_failed = λ id table table' e h. absurd (ground arith);
  version_apart = λ v table k. refl;
  log_apart = λ l table k. refl;
}

abbrev pub no_documents : Collection
no_documents = record {
  State = Unit;
  insert_one = λ r u. (none, u);
  find_one = λ id u. ok none;
  find = λ u. ok (ok []);
  update_one = λ r u. (ok 0, u);
  delete_one = λ id u. (ok 0, u);
  is_duplicate_key = λ e. false;
}

abbrev pub codec : Codec
codec = record {
  contains = λ s t. s == "rule not found: sql: no rows in result set";
  rule_to_map = λ r. ok no_fields;
  marshal = λ d. ok "{}";
}

abbrev pub call : Call
call = record {
  ctx = live;
  rule_uuid = "r1";
  version_uuid = "v1";
  log_uuid = "l1";
  event_uuid = "u1";
  rule_now = 5;
  version_now = 6;
  log_now = 7;
  event_now = 8;
  message_now = 9;
}

abbrev pub service : Service
service = record {
  has_enrichment_repo = false;
  has_versioning_repo = true;
  audit_enabled = true;
  config_event_producer = some notifier;
}

abbrev pub no_rules : World table_db no_documents
no_rules = record {
  heap = record { maps = λ a. no_fields; next = 8 };
  rows = [];
  documents = tt;
  dedup_config = none;
  sent = [];
}

abbrev pub creation : CreateFilteringRuleRequest
creation = record { name = "big"; expression = "yes"; priority = pos 3; enabled = none }

abbrev pub stored : FilteringRule
stored = record {
  id = "r1";
  name = "big";
  expression = "yes";
  priority = pos 3;
  enabled = true;
  created_at = 5;
  updated_at = 5;
}

-- The rule as the table holds it.
abbrev pub kept : FilteringRule
kept = record stored { created_at = 4; updated_at = 4 }

abbrev pub show : ℕ → String
show n = "n"

abbrev pub atoi : String → Option Int.ℤ
atoi s = none

abbrev pub renaming : UpdateFilteringRuleRequest
renaming = record { name = some "large"; expression = none; priority = none; enabled = none }

abbrev pub renamed : FilteringRule
renamed = record stored { name = "large" }
