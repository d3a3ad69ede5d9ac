-- ===== src/Management/Stored.antt =====
-- The methods on filtering rules, against the rows of the table as a map from UUIDs to rules.
use yeti.Base.{
  ap, ◌∙◌, ℕ, String, ◌≡◌, Option, none, some, arith, ◌==◌, if◌then◌else◌, Option-cases, inl, inr,
  Bool, true, ◌⊎◌,
}
use yeti.Errors.Chain.{Err}
use yeti.Errors.Result.{Result, ok, err, Result-cases}
use yeti.Cel.{CelLib}
use yeti.Model.Value.{Fields}
use yeti.Management.Notifier.{Json}
use yeti.Management.Store.{
  Database, Collection, Codec, Call, World, FilteringRule, RuleVersion, AuditLog,
}
use yeti.Management.Versioning
use yeti.Management.Service.{
  Service, create_version_and_audit, publish_config_event, build_version, build_audit_log,
}
use yeti.Management.FilteringRules.{announced}

-- A rule as it is read under the key `k` when it was inserted: `keep` is what a TIMESTAMP keeps of a time.
abbrev pub as_stored : (ℕ → ℕ) → String → FilteringRule → FilteringRule
as_stored keep k r = record r {
  id = k;
  created_at = keep r.created_at;
  updated_at = keep r.updated_at;
}

-- The columns that the UPDATE sets.
abbrev pub set_columns : (ℕ → ℕ) → FilteringRule → FilteringRule → FilteringRule
set_columns keep r old = record old {
  name = r.name;
  expression = r.expression;
  priority = r.priority;
  enabled = r.enabled;
  updated_at = keep r.updated_at;
}

abbrev pub set_row : (ℕ → ℕ) → FilteringRule → Option FilteringRule → Option FilteringRule
set_row keep r none = none
set_row keep r (some old) = some (set_columns keep r old)

-- What SQL says of the statements, while the database answers queries: the table is a map `row` by the
-- primary key. That is a UUID, and `denotes t k` says that the text `t` is the UUID which PostgreSQL
-- prints as `k`; a query for a text that is none fails. A TIMESTAMP keeps only a part of a time. A
-- statement that fails changes nothing, and may always fail; versions and logs are in other tables.
pub record Serves (db : Database) (row : Database.State db → String → Option FilteringRule)
    : Type 0 where
  pub keep : ℕ → ℕ
  pub denotes : String → String → Bool
  pub at_key :
      (k j : String) (st : db.State) (r : FilteringRule)
      → row st k ≡ some r
      → denotes k j ≡ (k == j)
  pub select :
      (id k : String) (st : db.State) → denotes id k ≡ true → db.select_rule id st ≡ ok (row st k)
  pub selects_key :
      (id : String) (st : db.State)
      → ((k : String) × (denotes id k ≡ true)) ⊎ ((e : Err) × (db.select_rule id st ≡ err e))
  pub inserts_key :
      (r : FilteringRule) (st st' : db.State)
      → db.insert_rule r st ≡ (none, st')
      → (k : String) × (denotes r.id k ≡ true)
  pub inserted :
      (r : FilteringRule) (st st' : db.State) (k : String)
      → db.insert_rule r st ≡ (none, st')
      → row st' k ≡ (if denotes r.id k then some (as_stored keep k r) else row st k)
  pub insert_failed :
      (r : FilteringRule) (st st' : db.State) (e : Err)
      → db.insert_rule r st ≡ (some e, st')
      → st' ≡ st
  pub updated :
      (r : FilteringRule) (st st' : db.State) (n : Result ℕ) (k : String)
      → db.update_rule r st ≡ (ok n, st')
      → row st' k ≡ (if denotes r.id k then set_row keep r (row st k) else row st k)
  pub update_failed :
      (r : FilteringRule) (st st' : db.State) (e : Err)
      → db.update_rule r st ≡ (err e, st')
      → st' ≡ st
  pub deleted :
      (id : String) (st st' : db.State) (n : Result ℕ) (k : String)
      → db.delete_rule id st ≡ (ok n, st')
      → row st' k ≡ (if denotes id k then none else row st k)
  pub delete_failed :
      (id : String) (st st' : db.State) (e : Err) → db.delete_rule id st ≡ (err e, st') → st' ≡ st
  pub version_apart :
      (v : RuleVersion) (st : db.State) (k : String) → row (db.insert_version v st).1 k ≡ row st k
  pub log_apart :
      (l : AuditLog) (st : db.State) (k : String) → row (db.insert_log l st).1 k ≡ row st k

module _ (lib : CelLib) (show_nat : ℕ → String) (db : Database) (mongo : Collection) (codec : Codec)
    (json : Json) (s : Service) (row : Database.State db → String → Option FilteringRule)
    (serves : Serves db row) where
  -- The rule under an ID is in the table, or is not, or the query fails.
  pub select-cases :
      (id : String) (st : db.State)
      → ((k : String) × (r : FilteringRule) × (serves.denotes id k ≡ true)
          × (row st k ≡ some r)
          × (db.select_rule id st ≡ ok (some r)))
        ⊎ ((db.select_rule id st ≡ ok none) ⊎ ((e : Err) × (db.select_rule id st ≡ err e)))
  select-cases id st = elim (serves.selects_key id st) [
    | inr (e, failed) ↦ inr (inr (e, failed))
    | inl (k, is) ↦ elim (Option-cases (row st k)) [
      | inl missing ↦ inr (inl (serves.select id k st is ∙ ap ok missing))
      | inr (r, there) ↦ inl (k, r, is, there, serves.select id k st is ∙ ap ok there)
    ]
  ]

  rows-create_version :
      (call : Call) (v : RuleVersion) (w : World db mongo) (k : String)
      → row (Versioning.create_version db mongo call v w).1.rows k ≡ row w.rows k
  unfolding Versioning.create_version
  rows-create_version call v w k =
      serves.version_apart (Versioning.stamped_version db mongo call v) w.rows k

  pub rows-create_audit_log :
      (call : Call) (l : AuditLog) (w : World db mongo) (k : String)
      → row (Versioning.create_audit_log db mongo codec call l w).1.rows k ≡ row w.rows k
  unfolding Versioning.create_audit_log
  rows-create_audit_log call l w k =
      let failure = Versioning.encode_failure db mongo codec in
      elim (Option-cases (failure "failed to marshal old value" l.old_value)) [
        | inr (e, failed) ↦ ground arith
        | inl old_encoded ↦
            elim (Option-cases (failure "failed to marshal new value" l.new_value)) [
              | inr (e, failed) ↦ ground arith
              | inl new_encoded ↦
                  ground (arith, serves.log_apart (Versioning.stamped_log db mongo call l) w.rows k)
            ]
      ]

  -- The version, the log and the event behind a change leave the rows.
  rows-create_version_and_audit :
      (call : Call) (r : FilteringRule) (action : String) (old : Option Fields) (w : World db mongo)
      (k : String)
      → row (create_version_and_audit db mongo codec json s call r action old w).rows k
        ≡ row w.rows k
  unfolding create_version_and_audit Versioning.rule_to_json
  rows-create_version_and_audit call r action old w k =
      elim (Result-cases (codec.marshal (Versioning.rule_data r))) [
        | inr (e, failed) ↦ ground arith
        | inl (rule_json, made) ↦
            let v = build_version db mongo codec json call r rule_json w in
            let w' = (Versioning.create_version db mongo call v w).1 in
            elim (Result-cases (codec.rule_to_map r)) [
              | inr (e, failed) ↦ ground (arith, rows-create_version call v w k)
              | inl (d, encoded) ↦ ground (
                arith,
                rows-create_version call v w k,
                rows-create_audit_log call
                    (build_audit_log db mongo codec json call r.id "filtering" action old (some d))
                    w' k,
              )
            ]
      ]

  pub rows-publish_config_event :
      (call : Call) (action id : String) (w : World db mongo)
      → (publish_config_event db mongo codec json s call action id w).rows ≡ w.rows
  unfolding publish_config_event
  rows-publish_config_event call action id w = ground arith

  pub rows-announced :
      (call : Call) (r : FilteringRule) (action : String) (old : Option Fields) (w : World db mongo)
      (k : String)
      → row (announced lib show_nat db mongo codec json s call r action old w).rows k ≡ row w.rows k
  rows-announced call r action old w k =
      ap (λ rows. row rows k)
        (rows-publish_config_event call action r.id
          (create_version_and_audit db mongo codec json s call r action old w))
      ∙ rows-create_version_and_audit call r action old w k
