-- ===== src/Tests/Effect.antt =====
-- The filtering service over the table that the API writes.
use yeti.Base.{
  String, ◌≡◌, refl, true, false, none, some, List, [], ◌∷◌, ◌++◌, arith, ◌==◌, eq_iff,
  if◌then◌else◌, inl, inr, Bool-cases,
}
use yeti.Base.Int.{pos}
use yeti.Base.Dict.{lookup}
use yeti.Errors.Result.{Result, ok}
use yeti.Errors.Rows.{Rows, end, row, scan_rows}
use yeti.Model.Message.{MessageEnvelope}
use yeti.Cel.{new_evaluator, validate_filter_expression, evaluate_filter}
use yeti.ConfigHandler.{handle_config_update_event}
use yeti.Filtering as Filtering
use yeti.Filtering.{Rule, filter}
use yeti.Filtering.Repository.{get_active_rules}
use yeti.Management.Announces.{filtering_handler}
use yeti.Management.Requests.{CreateFilteringRuleRequest}
use yeti.Management.Validator.{validate_filtering_rule}
use yeti.Management.Store.{World, FilteringRule}
use yeti.Management.Service.{get_enabled_value}
use yeti.Management.Repository
use yeti.Management.FilteringRules.{create_filtering_rule}
use yeti.Management.Effect.{as_rule, Selects, reload_from, create_filtering_rule-filter}
use yeti.Tests.Fixtures.{words, live, order}
use yeti.Tests.Management.{works, notifier, decodes}
use yeti.Tests.Management as Events
use yeti.Tests.Table as Table
use yeti.Tests.Table.{
  Table, table_db, table_db-Serves, no_documents, codec, call, service, no_rules, creation, stored,
  show,
}

abbrev enabled_rules : Table → List Rule
enabled_rules [] = []
enabled_rules ((k, r) ∷ table) =
    let rest = enabled_rules table in if r.enabled then as_rule r ∷ rest else rest

abbrev rows_of : List Rule → Rows Rule
rows_of [] = end
rows_of (r ∷ rules) = row (ok r) (rows_of rules)

abbrev select_active : Table → Result (Rows Rule)
select_active table = ok (rows_of (enabled_rules table))

get_active_rules-rows_of : (rules : List Rule) → get_active_rules (ok (rows_of rules)) ≡ ok rules
unfolding get_active_rules scan_rows
get_active_rules-rows_of [] = refl
get_active_rules-rows_of (r ∷ rules) = ground (arith, get_active_rules-rows_of rules)

enabled_rules_has :
    (table : Table) (k : String) (r : FilteringRule)
    → lookup k table ≡ some r
    → r.enabled ≡ true
    → (before : List Rule) × (after : List Rule) × (enabled_rules table
        ≡ before ++ (as_rule r ∷ after))
unfolding lookup
enabled_rules_has [] k r h on = absurd (ground arith)
enabled_rules_has ((j, x) ∷ table) k r h on = elim (Bool-cases (j == k)) [
  | inl here ↦ ([], enabled_rules table, ground arith)
  | inr later ↦
      let (before, after, there) = enabled_rules_has table k r (ground arith) on in
      elim (Bool-cases x.enabled) [
        | inl enabled ↦ (as_rule x ∷ before, after, ground arith)
        | inr disabled ↦ (before, after, ground arith)
      ]
]

selects : Selects table_db Table.row select_active
selects = record {
  active = enabled_rules;
  answers = λ table. get_active_rules-rows_of (enabled_rules table);
  holds_row = enabled_rules_has;
}

-- A rule that holds of no message.
abbrev blocking : CreateFilteringRuleRequest
blocking = record creation { name = "none"; expression = "no" }

abbrev blocks : FilteringRule
blocks = record stored { name = "none"; expression = "no" }

abbrev after_blocking : World table_db no_documents
after_blocking =
    (create_filtering_rule words show table_db no_documents codec Events.json service call blocking
      no_rules).1

blocking_is :
    create_filtering_rule words show table_db no_documents codec Events.json service call blocking
      no_rules
    ≡ (ok blocks, after_blocking)
unfolding create_filtering_rule Repository.create_filtering_rule validate_filtering_rule
    new_evaluator validate_filter_expression get_enabled_value
blocking_is = refl

abbrev empty_service : Filtering.Service words
empty_service = record {
  rules = [];
  filtering_config = record { on_error = "allow"; interval_seconds = pos 30 };
  evaluator = [];
}

create_filtering_rule-filter_example :
    (m : MessageEnvelope) × (after_blocking.sent
      ≡ [] ++ (record { topic = "config"; msg = m } ∷ []))
    × (f' : Filtering.Service words) × (handle_config_update_event
          (Filtering.Service words)
          decodes
          (filtering_handler (
            reload_from words show table_db no_documents codec Events.json service Table.row
              table_db-Serves select_active selects after_blocking.rows))
          m
          empty_service
        ≡ (f', none))
    × (applied : List String) × (filter words f' live order ≡ ok (false, applied))
unfolding evaluate_filter
create_filtering_rule-filter_example =
    create_filtering_rule-filter words show table_db no_documents codec Events.json service
      Table.row table_db-Serves select_active selects call blocking no_rules after_blocking blocks
      notifier works decodes empty_service _ live order blocking_is refl refl refl
      (λ h. absurd (ground (arith, eq_iff "config" "", h))) refl refl refl (λ m. refl) (λ k. refl)
      refl
