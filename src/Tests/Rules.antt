-- ===== src/Tests/Rules.antt =====
-- The management service over a table of filtering rules by their IDs.
use yeti.Base.{◌≡◌, refl, true, none, some, [], ◌∷◌, ◌==◌, if◌then◌else◌}
use yeti.Base.Int.{pos}
use yeti.Base.Dict.{lookup}
use yeti.Errors.Chain.{plain, wrap}
use yeti.Errors.Result.{Result, ok, err}
use yeti.Errors.Rows.{Rows, broken, scan_rows}
use yeti.Cel.{new_evaluator, validate_filter_expression}
use yeti.Filtering.Repository.{get_active_rules}
use yeti.Management.Requests.{UpdateDeduplicationConfigRequest}
use yeti.Management.Validator.{validate_filtering_rule, validate_update_filtering_rule}
use yeti.Management.Store.{Database, World, FilteringRule}
use yeti.Management.Service.{get_enabled_value}
use yeti.Management.FilteringRules.{
  create_filtering_rule, update_filtering_rule, delete_filtering_rule, list_filtering_rules,
}
use yeti.Management.Handler.{Reply, json, status, status_of, create_rule, get_rule, delete_rule}
use yeti.Management.Repository
use yeti.Management.DedupSettings.{update_deduplication_config}
use yeti.Management.FilteringRules.{update_filtering_rule_fields}
use yeti.Management.Settings.{KeptConfig, update_deduplication_config-KeptConfig}
use yeti.Management.Changes.{update_filtering_rule_stores}
use yeti.Management.Http.{create_rule-get_rule, delete_rule-get_rule}
use yeti.Management.History.{list_filtering_rules_broken}
use yeti.Tests.Fixtures.{words}
use yeti.Tests.Management.{works, notifier, reload, decodes, written}
use yeti.Tests.Management as Events
use yeti.Tests.Table.{
  renaming, renamed, table_db, row, no_documents, codec, call, service, no_rules, creation, stored,
  kept, keep, show, atoi, table_db-Serves,
}

abbrev created : Reply FilteringRule × World table_db no_documents
created =
    create_rule words show table_db no_documents codec Events.json service atoi call (ok creation)
      no_rules

created_is : created ≡ (json 201 stored, created.1)
unfolding create_rule create_filtering_rule Repository.create_filtering_rule validate_filtering_rule
    new_evaluator validate_filter_expression get_enabled_value
created_is = refl

create_rule-get_rule_example :
    (stored.id ≡ call.rule_uuid)
    × (get_rule words show table_db no_documents codec Events.json service atoi stored.id created.1
        ≡ (json 200 kept, created.1))
unfolding table_db-Serves
create_rule-get_rule_example =
    create_rule-get_rule words show table_db no_documents codec Events.json service atoi row
      table_db-Serves call (ok creation) no_rules created.1 stored refl created_is

abbrev one_rule : World table_db no_documents
one_rule = record no_rules { rows = ("r1", stored) ∷ [] }

abbrev update : Result FilteringRule × World table_db no_documents
update =
    update_filtering_rule words show table_db no_documents codec Events.json service call "r1"
      renaming one_rule

update_is : update ≡ (ok renamed, update.1)
unfolding update_filtering_rule validate_update_filtering_rule Repository.update_filtering_rule
    Repository.get_filtering_rule update_filtering_rule_fields lookup
update_is = refl

update_filtering_rule_stores_example :
    (renamed ≡ record {
      id = "r1";
      name = "large";
      expression = "yes";
      priority = pos 3;
      enabled = true;
      created_at = 5;
      updated_at = 5;
    })
    × (row update.1.rows "r1" ≡ (
        if "r1" == "r1"
        then some (record renamed { updated_at = keep 5 })
        else row one_rule.rows "r1"))
unfolding lookup table_db-Serves
update_filtering_rule_stores_example =
    update_filtering_rule_stores words show table_db no_documents codec Events.json service row
      table_db-Serves call "r1" renaming one_rule update.1 stored renamed "r1" refl refl update_is

abbrev deletion : Reply (Unit {0}) × World table_db no_documents
deletion =
    delete_rule words show table_db no_documents codec Events.json service atoi call "r1" one_rule

deletion_is : deletion ≡ (status 204, deletion.1)
unfolding delete_rule delete_filtering_rule Repository.delete_filtering_rule
    Repository.get_filtering_rule lookup
deletion_is = refl

delete_rule-get_rule_example :
    status_of
      (get_rule words show table_db no_documents codec Events.json service atoi "r1" deletion.1).0
    ≡ 404
delete_rule-get_rule_example =
    delete_rule-get_rule words show table_db no_documents codec Events.json service atoi row
      table_db-Serves call "r1" one_rule deletion.1 refl deletion_is

-- A connection that breaks after the first row.
abbrev cut : Rows FilteringRule
cut = Rows.row (ok stored) (broken (plain "connection reset"))

abbrev cut_db : Database
cut_db = record table_db { select_rules = λ table. ok cut }

abbrev cut_rules : World cut_db no_documents
cut_rules = record {
  heap = no_rules.heap;
  rows = [];
  documents = tt;
  dedup_config = none;
  sent = [];
}

list_filtering_rules_broken_example :
    (list_filtering_rules words show cut_db no_documents codec Events.json service call cut_rules
      ≡ (ok (stored ∷ []), cut_rules))
    × (get_active_rules (ok cut) ≡ err (wrap "rows iteration error" (plain "connection reset")))
unfolding scan_rows
list_filtering_rules_broken_example =
    list_filtering_rules_broken words show cut_db no_documents codec Events.json service call
      cut_rules cut (stored ∷ []) (plain "connection reset") refl refl refl (λ k. refl)

abbrev shorter : UpdateDeduplicationConfigRequest
shorter = record {
  hash_algorithm = none;
  ttl_seconds = some (pos 60);
  on_redis_error = none;
  fields_to_hash = none;
}

update_deduplication_config-KeptConfig_example :
    KeptConfig
      (update_deduplication_config table_db no_documents codec Events.json service call shorter
        no_rules).1.dedup_config
update_deduplication_config-KeptConfig_example =
    update_deduplication_config-KeptConfig words show table_db no_documents codec Events.json
      service call shorter no_rules tt
