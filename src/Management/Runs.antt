-- ===== src/Management/Runs.antt =====
-- The filtering rules under any sequence of requests: steps of the methods on the world.
pub mod Overlapping
use mathlib.Core.Path.{subst}
use yeti.Base.{
  ℕ, String, ◌≡◌, Option, none, some, arith, ◌==◌, Option-cases, Bool-cases, text-cases, inl, inr,
}
use yeti.Errors.Result.{Result, ok, Result-cases}
use yeti.Cel.{CelLib}
use yeti.Management.Notifier.{Json}
use yeti.Management.Requests.{CreateFilteringRuleRequest, UpdateFilteringRuleRequest}
use yeti.Management.Validator.{validate_filtering_rule, validate_update_filtering_rule}
use yeti.Management.Store.{Database, Collection, Codec, Call, World, FilteringRule}
use yeti.Management.Repository
use yeti.Management.Service.{Service, or_nil, handle_not_found_error, build_audit_log}
use yeti.Management.FilteringRules.{
  new_rule, update_filtering_rule_fields, create_filtering_rule, get_filtering_rule,
  update_filtering_rule, delete_filtering_rule, list_filtering_rules, log_deletion,
}
use yeti.Management.Stored.{
  Serves, as_stored, set_columns, select-cases, rows-announced, rows-create_audit_log,
  rows-publish_config_event,
}

module _ (lib : CelLib) (show_nat : ℕ → String) (db : Database) (mongo : Collection) (codec : Codec)
    (json : Json) (s : Service) (row : Database.State db → String → Option FilteringRule) where
  -- A request, from the world that it finds to the one that it leaves.
  pub data Step : World db mongo → World db mongo → Type 0 where
    creates :
        (call : Call) (req : CreateFilteringRuleRequest) (w : World db mongo)
        → Step w (create_filtering_rule lib show_nat db mongo codec json s call req w).1
    updates :
        (call : Call) (id : String) (req : UpdateFilteringRuleRequest) (w : World db mongo)
        → Step w (update_filtering_rule lib show_nat db mongo codec json s call id req w).1
    deletes :
        (call : Call) (id : String) (w : World db mongo)
        → Step w (delete_filtering_rule lib show_nat db mongo codec json s call id w).1
    gets :
        (id : String) (w : World db mongo)
        → Step w (get_filtering_rule lib show_nat db mongo codec json s id w).1
    lists :
        (call : Call) (w : World db mongo)
        → Step w (list_filtering_rules lib show_nat db mongo codec json s call w).1

  -- The worlds after any requests, from `w₀` on.
  pub data Reached (w₀ : World db mongo) : World db mongo → Type 0 where
    start : Reached w₀ w₀
    next : {w w' : World db mongo} → Reached w₀ w → Step w w' → Reached w₀ w'

  -- What holds of each rule that is stored.
  module _ (P : FilteringRule → Type 0) (serves : Serves db row) where
    abbrev pub Holds : World db mongo → Type 0
    Holds w = (k : String) (r : FilteringRule) → row w.rows k ≡ some r → P r

    module _
        (of_new : (call : Call) (req : CreateFilteringRuleRequest) (k : String)
          → validate_filtering_rule lib show_nat req ≡ none
          → P (as_stored serves.keep k (Repository.stamped db mongo codec call (new_rule req))))
        (of_updated : (call : Call) (req : UpdateFilteringRuleRequest) (old y : FilteringRule)
          → validate_update_filtering_rule lib show_nat req ≡ none
          → P old
          → P y
          → P (
              set_columns serves.keep
                (Repository.touched db mongo codec call (update_filtering_rule_fields req old))
                y)) where
      Holds-create :
          (call : Call) (req : CreateFilteringRuleRequest) (w : World db mongo)
          → Holds w
          → Holds (create_filtering_rule lib show_nat db mongo codec json s call req w).1
      unfolding create_filtering_rule Repository.create_filtering_rule
      Holds-create call req w holds k x h =
          let r = Repository.stamped db mongo codec call (new_rule req) in
          let (failure, rows) = db.insert_rule r w.rows in
          elim (Option-cases (validate_filtering_rule lib show_nat req)) [
            | inr (e, refused) ↦ holds k x (ground arith)
            | inl admitted ↦ elim (Option-cases failure) [
              | inr (e, failed) ↦ holds k x (ground (arith, serves.insert_failed r w.rows rows e))
              | inl taken ↦
                  let after =
                    rows-announced lib show_nat db mongo codec json s row serves call r "create"
                      none (record w { rows = rows }) k in
                  elim (Bool-cases (serves.denotes r.id k)) [
                    | inl is ↦
                        let same : as_stored serves.keep k r ≡ x =
                          ground (arith, after, serves.inserted r w.rows rows k) in
                        subst P same (of_new call req k admitted)
                    | inr apart ↦ holds k x (ground (arith, after, serves.inserted r w.rows rows k))
                  ]
            ]
          ]

      -- A row after the statement of an update.
      pub updated_row :
          (call : Call) (req : UpdateFilteringRuleRequest) (old : FilteringRule) (st st' : db.State)
          (n : Result ℕ) (k : String) (x : FilteringRule)
          → validate_update_filtering_rule lib show_nat req ≡ none
          → P old
          → ((y : FilteringRule) → row st k ≡ some y → P y)
          → db.update_rule
              (Repository.touched db mongo codec call (update_filtering_rule_fields req old))
              st
            ≡ (ok n, st')
          → row st' k ≡ some x
          → P x
      updated_row call req old st st' n k x admitted of_old holds done h =
          let r = Repository.touched db mongo codec call (update_filtering_rule_fields req old) in
          elim (Option-cases (row st k)) [
            | inl missing ↦ absurd (ground (arith, serves.updated r st st' n k))
            | inr (y, there) ↦ elim (Bool-cases (serves.denotes r.id k)) [
              | inr apart ↦ holds x (ground (arith, serves.updated r st st' n k))
              | inl same ↦
                  let now : set_columns serves.keep r y ≡ x =
                    ground (arith, serves.updated r st st' n k) in
                  subst P now (of_updated call req old y admitted of_old (holds y there))
            ]
          ]

      Holds-update :
          (call : Call) (id : String) (req : UpdateFilteringRuleRequest) (w : World db mongo)
          → Holds w
          → Holds (update_filtering_rule lib show_nat db mongo codec json s call id req w).1
      unfolding update_filtering_rule Repository.update_filtering_rule Repository.get_filtering_rule
          handle_not_found_error
      Holds-update call id req w holds k x h =
          elim (Option-cases (validate_update_filtering_rule lib show_nat req)) [
            | inr (e, refused) ↦ holds k x (ground arith)
            | inl admitted ↦
                elim (select-cases lib show_nat db mongo codec json s row serves id w.rows) [
                  | inr (inr (e, failed)) ↦ holds k x (ground arith)
                  | inr (inl missing) ↦ holds k x (ground arith)
                  | inl (j, old, is, there, read) ↦
                      let r =
                        Repository.touched db mongo codec call
                          (update_filtering_rule_fields req old) in
                      let (answer, rows) = db.update_rule r w.rows in
                      elim (Result-cases answer) [
                        | inr (e, failed) ↦
                            holds k x (ground (arith, read, serves.update_failed r w.rows rows e))
                        | inl (n, done) ↦
                            updated_row call req old w.rows rows n k x admitted (holds j old there)
                              (holds k) (ground arith)
                              (ground (
                                arith,
                                read,
                                rows-announced lib show_nat db mongo codec json s row serves call r
                                    "update" (or_nil (codec.rule_to_map old))
                                    (record w { rows = rows }) k,
                              ))
                      ]
                ]
          ]

      Holds-delete :
          (call : Call) (id : String) (w : World db mongo)
          → Holds w
          → Holds (delete_filtering_rule lib show_nat db mongo codec json s call id w).1
      unfolding delete_filtering_rule Repository.delete_filtering_rule Repository.get_filtering_rule
          handle_not_found_error
      Holds-delete call id w holds k x h =
          elim (select-cases lib show_nat db mongo codec json s row serves id w.rows) [
            | inr (inr (e, failed)) ↦ holds k x (ground arith)
            | inr (inl missing) ↦ holds k x (ground arith)
            | inl (j, old, is, there, read) ↦
                let (answer, rows) = db.delete_rule id w.rows in
                let old_value = or_nil (codec.rule_to_map old) in
                let w₁ : World db mongo = record w { rows = rows } in
                elim (Result-cases answer) [
                  | inr (e, failed) ↦
                      holds k x (ground (arith, read, serves.delete_failed id w.rows rows e))
                  | inl (n, done) ↦ holds k x (
                      ground (
                        arith,
                        read,
                        serves.deleted id w.rows rows n k,
                        rows-create_audit_log lib show_nat db mongo codec json s row serves call
                            (build_audit_log db mongo codec json call id "filtering" "delete"
                              old_value none)
                            w₁ k,
                        rows-publish_config_event lib show_nat db mongo codec json s row serves call
                            "delete" id
                            (log_deletion lib show_nat db mongo codec json s call id old_value w₁),
                      ))
                ]
          ]

      Holds-get :
          (id : String) (w : World db mongo)
          → Holds w
          → Holds (get_filtering_rule lib show_nat db mongo codec json s id w).1
      unfolding get_filtering_rule Repository.get_filtering_rule handle_not_found_error
      Holds-get id w holds k x h =
          elim (select-cases lib show_nat db mongo codec json s row serves id w.rows) [
            | inr (inr (e, failed)) ↦ holds k x (ground arith)
            | inr (inl missing) ↦ holds k x (ground arith)
            | inl (j, old, is, there, read) ↦ holds k x (ground arith)
          ]

      Holds-list :
          (call : Call) (w : World db mongo)
          → Holds w
          → Holds (list_filtering_rules lib show_nat db mongo codec json s call w).1
      unfolding list_filtering_rules Repository.list_filtering_rules
      Holds-list call w holds k x h =
          elim (Result-cases (Repository.list_filtering_rules db mongo codec call.ctx w).0) [
            | inl (rules, listed) ↦ holds k x (ground arith)
            | inr (e, failed) ↦ holds k x (ground arith)
          ]

      pub Holds-Step : {w w' : World db mongo} → Step w w' → Holds w → Holds w'
      Holds-Step (creates call req w) holds = Holds-create call req w holds
      Holds-Step (updates call id req w) holds = Holds-update call id req w holds
      Holds-Step (deletes call id w) holds = Holds-delete call id w holds
      Holds-Step (gets id w) holds = Holds-get id w holds
      Holds-Step (lists call w) holds = Holds-list call w holds
