-- ===== src/Tests/Numbers.antt =====
-- A table of rules with the numbers of their versions, and requests on it.
use yeti.Base.{
  ◌≡◌, refl, String, ℕ, suc, false, none, some, List, [], ◌∷◌, arith, ◌==◌, if◌then◌else◌, inl, inr,
  Bool-cases, Option, ◌⊎◌,
}
use yeti.Base.Dict.{insert, erase, lookup}
use yeti.Errors.Chain.{Err, plain}
use yeti.Errors.Result.{Result, ok}
use yeti.Management.Store.{Database, World, FilteringRule, RuleVersion}
use yeti.Management.FilteringRules.{
  create_filtering_rule, update_filtering_rule, update_filtering_rule_fields,
}
use yeti.Cel.{new_evaluator, validate_filter_expression}
use yeti.Management.Validator.{validate_filtering_rule, validate_update_filtering_rule}
use yeti.Management.Repository
use yeti.Management.Versioning
use yeti.Management.Service.{
  build_version, build_audit_log, create_version_and_audit, publish_config_event, get_enabled_value,
}
use yeti.Errors.Rows.{end}
use yeti.Management.Runs.{creates, updates}
use yeti.Management.Runs.Overlapping.{Overlapping, starts, steps}
use yeti.Management.Numbering.{Keeps, IsConsecutive, largest, has}
use yeti.Management.Numbering.Numbered.{Overlapping-IsConsecutive}
use yeti.Tests.Fixtures.{words}
use yeti.Tests.Management as Events
use yeti.Tests.Table.{
  Table, update_row, no_documents, codec, call, service, no_rules, creation, renaming, show,
}

abbrev Numbers : Type 0
Numbers = String → List ℕ

abbrev insert_number : RuleVersion → Table × Numbers → Option Err × (Table × Numbers)
insert_number v (table, numbers) =
    if has v.version (numbers v.rule_id)
    then (some (plain "duplicate key"), (table, numbers))
    else (none, (table, λ k. if v.rule_id == k then v.version ∷ numbers k else numbers k))

abbrev update_numbered : FilteringRule → Table × Numbers → Result (Result ℕ) × (Table × Numbers)
update_numbered r (table, numbers) =
    let (answer, table') = update_row r table in (answer, (table', numbers))

abbrev numbered_db : Database
numbered_db = record {
  State = Table × Numbers;
  insert_rule = λ r st. (none, (insert r.id r st.0, st.1));
  select_rule = λ k st. ok (lookup k st.0);
  select_rules = λ st. ok end;
  update_rule = update_numbered;
  delete_rule = λ id st. (ok (ok 1), (erase id st.0, λ k. if id == k then [] else st.1 k));
  insert_version = insert_number;
  select_versions = λ id st. ok end;
  next_version = λ id st. ok (suc (largest (st.1 id)));
  insert_log = λ l st. (none, st);
  select_logs_by_rule = λ id limit st. ok end;
  select_logs_by_type = λ kind limit st. ok end;
  select_logs = λ limit st. ok end;
  unique_violation = λ e. false;
}

abbrev numbers : Table × Numbers → String → List ℕ
numbers st k = st.1 k

deleted_numbers :
    (id : String) (st : Table × Numbers) (k : String)
    → ((if id == k then [] else st.1 k) ≡ st.1 k) ⊎ ((if id == k then [] else st.1 k) ≡ [])
deleted_numbers id st k = elim (Bool-cases (id == k)) [
  | inl same ↦ inr (ground arith)
  | inr apart ↦ inl (ground arith)
]

numbered_db-Keeps : Keeps numbered_db numbers
numbered_db-Keeps = record {
  next_is = λ id st n h. ground arith;
  unique = λ v st st' h. elim (Bool-cases (has v.version (st.1 v.rule_id))) [
    | inl there ↦ absurd (ground arith)
    | inr new ↦ new
  ];
  stored = λ v st st' k h. elim (Bool-cases (has v.version (st.1 v.rule_id))) [
    | inl there ↦ absurd (ground arith)
    | inr new ↦ ground arith
  ];
  refused = λ v st st' e k h. elim (Bool-cases (has v.version (st.1 v.rule_id))) [
    | inl there ↦ ground arith
    | inr new ↦ absurd (ground arith)
  ];
  insert_apart = λ r st k. refl;
  update_apart = λ r st k. refl;
  delete_cascades = deleted_numbers;
  log_apart = λ l st k. refl;
}

abbrev nothing : World numbered_db no_documents
nothing = record {
  heap = no_rules.heap;
  rows = ([], λ k. []);
  documents = tt;
  dedup_config = none;
  sent = [];
}

abbrev one_version : World numbered_db no_documents
one_version =
    (create_filtering_rule words show numbered_db no_documents codec Events.json service call
      creation nothing).1

abbrev two_versions : World numbered_db no_documents
two_versions =
    (update_filtering_rule words show numbered_db no_documents codec Events.json service call "r1"
      renaming one_version).1

abbrev row : Table × Numbers → String → Option FilteringRule
row st k = lookup k st.0

both :
    Overlapping words show numbered_db no_documents codec Events.json service row nothing
      two_versions []
both = steps (steps starts (creates call creation nothing)) (updates call "r1" renaming one_version)

-- The creation and the update make the versions 1 and 2.
two : numbers two_versions.rows "r1" ≡ 2 ∷ 1 ∷ []
unfolding create_filtering_rule update_filtering_rule validate_update_filtering_rule
    Repository.get_filtering_rule lookup validate_filtering_rule new_evaluator
    validate_filter_expression Repository.create_filtering_rule publish_config_event
    create_version_and_audit Versioning.rule_to_json Versioning.create_version
    Versioning.create_audit_log build_audit_log insert Repository.update_filtering_rule
    update_filtering_rule_fields build_version get_enabled_value Versioning.get_next_version
two = refl

Overlapping-IsConsecutive_example : IsConsecutive (numbers two_versions.rows "r1")
Overlapping-IsConsecutive_example =
    Overlapping-IsConsecutive words show numbered_db no_documents codec Events.json service row
      numbers numbered_db-Keeps nothing two_versions [] (λ k. tt) both "r1"
