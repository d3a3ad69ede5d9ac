-- ===== src/Management/Changes.antt =====
-- What the methods on filtering rules store, return and announce.
use yeti.Base.{
  ℕ, String, ◌≡◌, Option, none, some, arith, ◌==◌, eq_iff, if◌then◌else◌, Option-cases, inl, inr,
  true, ◌∙◌, eq_refl, value_or,
}
use yeti.Errors.Chain.{Err}
use yeti.Errors.Result.{ok, err, Result-cases}
use yeti.Cel.{CelLib}
use yeti.Management.Notifier.{Json}
use yeti.Management.Requests.{CreateFilteringRuleRequest, UpdateFilteringRuleRequest}
use yeti.Management.Validator.{validate_filtering_rule, validate_update_filtering_rule}
use yeti.Management.Store.{Database, Collection, Codec, Call, World, FilteringRule}
use yeti.Management.Repository
use yeti.Management.Service.{Service, or_nil, handle_not_found_error, build_audit_log}
use yeti.Management.FilteringRules.{
  new_rule, update_filtering_rule_fields, create_filtering_rule, update_filtering_rule,
  delete_filtering_rule, log_deletion,
}
use yeti.Management.Stored.{
  Serves, as_stored, select-cases, rows-announced, rows-create_audit_log, rows-publish_config_event,
}

module _ (lib : CelLib) (show_nat : ℕ → String) (db : Database) (mongo : Collection) (codec : Codec)
    (json : Json) (s : Service) (row : Database.State db → String → Option FilteringRule)
    (serves : Serves db row) where
  -- Creating a rule that is admitted, and that the database takes, stores the rule of the request under
  -- the new ID and the time, returns that rule, and leaves the rules under other IDs.
  pub create_filtering_rule_stores :
      (call : Call) (req : CreateFilteringRuleRequest) (w w' : World db mongo)
      (rule : FilteringRule) (k : String)
      → create_filtering_rule lib show_nat db mongo codec json s call req w ≡ (ok rule, w')
      → (rule ≡ Repository.stamped db mongo codec call (new_rule req))
        × (row w'.rows k ≡ (
            if serves.denotes call.rule_uuid k
            then some (as_stored serves.keep k rule)
            else row w.rows k))
  unfolding create_filtering_rule Repository.create_filtering_rule
  create_filtering_rule_stores call req w w' rule k h =
      let r = Repository.stamped db mongo codec call (new_rule req) in
      let (failure, rows) = db.insert_rule r w.rows in
      elim (Option-cases (validate_filtering_rule lib show_nat req)) [
        | inr (e, refused) ↦ absurd (ground arith)
        | inl admitted ↦ elim (Option-cases failure) [
          | inr (e, failed) ↦ ground arith
          | inl taken ↦ ground (
            arith,
            serves.inserted r w.rows rows k,
            rows-announced lib show_nat db mongo codec json s row serves call r "create" none
                (record w { rows = rows }) k,
          )
        ]
      ]

  -- The new ID is a UUID then.
  pub create_filtering_rule_key :
      (call : Call) (req : CreateFilteringRuleRequest) (w w' : World db mongo)
      (rule : FilteringRule)
      → create_filtering_rule lib show_nat db mongo codec json s call req w ≡ (ok rule, w')
      → (k : String) × (serves.denotes call.rule_uuid k ≡ true)
  unfolding create_filtering_rule Repository.create_filtering_rule
  create_filtering_rule_key call req w w' rule h =
      let r = Repository.stamped db mongo codec call (new_rule req) in
      let (failure, rows) = db.insert_rule r w.rows in
      elim (Option-cases (validate_filtering_rule lib show_nat req)) [
        | inr (e, refused) ↦ absurd (ground arith)
        | inl admitted ↦ elim (Option-cases failure) [
          | inr (e, failed) ↦ absurd (ground arith)
          | inl taken ↦ serves.inserts_key r w.rows rows (ground arith)
        ]
      ]

  -- A creation that fails leaves the table, and announces nothing, over a database whose statements
  -- change nothing when they fail.
  pub create_filtering_rule_fails :
      (call : Call) (req : CreateFilteringRuleRequest) (w w' : World db mongo) (e : Err)
      → create_filtering_rule lib show_nat db mongo codec json s call req w ≡ (err e, w')
      → (w'.rows ≡ w.rows) × (w'.sent ≡ w.sent)
  unfolding create_filtering_rule Repository.create_filtering_rule
  create_filtering_rule_fails call req w w' e h =
      let r = Repository.stamped db mongo codec call (new_rule req) in
      let (failure, rows) = db.insert_rule r w.rows in
      elim (Option-cases (validate_filtering_rule lib show_nat req)) [
        | inr (x, refused) ↦ ground arith
        | inl admitted ↦ elim (Option-cases failure) [
          | inr (x, failed) ↦ ground (arith, serves.insert_failed r w.rows rows x)
          | inl taken ↦ absurd (ground arith)
        ]
      ]

  -- Over a database that keeps its rows as SQL says, an update that succeeds, of a rule stored under its
  -- own ID, answers the stored rule with the name, the expression, the priority and the mark that it is
  -- enabled as the request has them, where it has them, and with the new time; and it changes that rule
  -- alone: its row holds what is answered, with the part of the time that the database keeps.
  pub update_filtering_rule_stores :
      (call : Call) (id : String) (req : UpdateFilteringRuleRequest) (w w' : World db mongo)
      (old rule : FilteringRule) (k : String)
      → row w.rows id ≡ some old
      → old.id ≡ id
      → update_filtering_rule lib show_nat db mongo codec json s call id req w ≡ (ok rule, w')
      → (rule ≡ record {
        id = id;
        name = value_or req.name old.name;
        expression = value_or req.expression old.expression;
        priority = value_or req.priority old.priority;
        enabled = value_or req.enabled old.enabled;
        created_at = old.created_at;
        updated_at = call.rule_now;
      })
        × (row w'.rows k ≡ (
            if id == k
            then some (record rule { updated_at = serves.keep call.rule_now })
            else row w.rows k))
  unfolding update_filtering_rule Repository.update_filtering_rule Repository.get_filtering_rule
      update_filtering_rule_fields
  update_filtering_rule_stores call id req w w' old rule k there same h =
      let r = Repository.touched db mongo codec call (update_filtering_rule_fields req old) in
      let (answer, rows) = db.update_rule r w.rows in
      let read = serves.select id id w.rows (serves.at_key id id w.rows old there ∙ eq_refl id) in
      elim (Option-cases (validate_update_filtering_rule lib show_nat req)) [
        | inr (x, refused) ↦ absurd (ground arith)
        | inl admitted ↦ elim (Result-cases answer) [
          | inr (x, failed) ↦ absurd (ground (arith, read))
          | inl (n, done) ↦ ground (
            arith,
            eq_iff id k,
            read,
            serves.at_key id k w.rows old there,
            serves.updated r w.rows rows n k,
            rows-announced lib show_nat db mongo codec json s row serves call r "update"
                (or_nil (codec.rule_to_map old)) (record w { rows = rows }) k,
          )
        ]
      ]

  -- Deleting a rule removes it and no other.
  pub delete_filtering_rule_removes :
      (call : Call) (id : String) (w w' : World db mongo) (k : String)
      → delete_filtering_rule lib show_nat db mongo codec json s call id w ≡ (ok tt, w')
      → row w'.rows k ≡ (if serves.denotes id k then none else row w.rows k)
  unfolding delete_filtering_rule Repository.delete_filtering_rule Repository.get_filtering_rule
      handle_not_found_error
  delete_filtering_rule_removes call id w w' k h =
      let (answer, rows) = db.delete_rule id w.rows in
      elim (select-cases lib show_nat db mongo codec json s row serves id w.rows) [
        | inr (inr (e, failed)) ↦ absurd (ground arith)
        | inr (inl missing) ↦ absurd (ground arith)
        | inl (j, old, is, there, read) ↦ elim (Result-cases answer) [
          | inr (x, failed) ↦ absurd (ground (arith, read))
          | inl (n, done) ↦
              let w₁ : World db mongo = record w { rows = rows } in
              let l =
                build_audit_log db mongo codec json call id "filtering" "delete"
                  (or_nil (codec.rule_to_map old)) none in
              ground (
                arith,
                read,
                serves.deleted id w.rows rows n k,
                rows-create_audit_log lib show_nat db mongo codec json s row serves call l w₁ k,
                rows-publish_config_event lib show_nat db mongo codec json s row serves call
                    "delete" id
                    (log_deletion lib show_nat db mongo codec json s call id
                      (or_nil (codec.rule_to_map old)) w₁),
              )
        ]
      ]

  -- A rule that was deleted was there under a key that its ID denotes.
  pub delete_filtering_rule_key :
      (call : Call) (id : String) (w w' : World db mongo)
      → delete_filtering_rule lib show_nat db mongo codec json s call id w ≡ (ok tt, w')
      → (k : String) × (serves.denotes id k ≡ true)
  unfolding delete_filtering_rule Repository.get_filtering_rule handle_not_found_error
  delete_filtering_rule_key call id w w' h = elim (serves.selects_key id w.rows) [
    | inl key ↦ key
    | inr (e, failed) ↦ absurd (ground arith)
  ]
