-- ===== src/Management/Numbering/Methods.antt =====
-- internal/management/service.go: each method keeps the numbers of the versions.
use mathlib.Core.Path.{subst}
use yeti.Base.{
  ap, ℕ, String, ◌≡◌, ◌&&◌, Bool-cases, Option, none, List, arith, inl, inr, Option-cases,
}
use yeti.Errors.Result.{Result, ok, err, Result-cases}
use yeti.Cel.{CelLib}
use yeti.Model.Value.{Fields}
use yeti.Management.Notifier.{Json}
use yeti.Management.Requests.{CreateFilteringRuleRequest, UpdateFilteringRuleRequest}
use yeti.Management.Validator.{validate_filtering_rule}
use yeti.Management.Store.{Database, Collection, Codec, Call, World, FilteringRule}
use yeti.Management.Repository
use yeti.Management.Service.{
  Service, or_nil, create_version_and_audit, publish_config_event, build_audit_log,
  handle_not_found_error,
}
use yeti.Management.FilteringRules.{
  new_rule, announced, create_filtering_rule, get_filtering_rule, list_filtering_rules,
  log_deletion, update_filtering_rule, delete_filtering_rule,
}
use yeti.Management.Overlap.{
  Update, Deletion, begin_update, finish_update, begin_deletion, finish_deletion, written, and_then,
  and_then-begin_update, and_then-begin_deletion, rows-begin_update, rows-begin_deletion,
}
use yeti.Management.Numbering.{
  Keeps, IsConsecutive-of, IsNumbered, IsNumbered-create_version_and_audit,
  numbers-create_audit_log,
}

module _ (lib : CelLib) (show_nat : ℕ → String) (db : Database) (mongo : Collection) (codec : Codec)
    (json : Json) (s : Service) (numbers : Database.State db → String → List ℕ)
    (keeps : Keeps db numbers) where
  abbrev pub Kept : World db mongo → Type 0
  Kept = IsNumbered lib show_nat db mongo codec json s numbers keeps

  pub Kept-rows : (w w' : World db mongo) → w'.rows ≡ w.rows → Kept w → Kept w'
  Kept-rows w w' same h k = IsConsecutive-of (ap (λ st. numbers st k) same) (h k)

  Kept-published :
      (call : Call) (action id : String) (w : World db mongo)
      → Kept w
      → Kept (publish_config_event db mongo codec json s call action id w)
  unfolding publish_config_event
  Kept-published call action id w h k = IsConsecutive-of (ground arith) (h k)

  Kept-announced :
      (call : Call) (r : FilteringRule) (action : String) (old : Option Fields) (w : World db mongo)
      → Kept w
      → Kept (announced lib show_nat db mongo codec json s call r action old w)
  Kept-announced call r action old w h =
      Kept-published call action r.id
        (create_version_and_audit db mongo codec json s call r action old w)
        (IsNumbered-create_version_and_audit lib show_nat db mongo codec json s numbers keeps call r
          action old w h)

  pub Kept-create :
      (call : Call) (req : CreateFilteringRuleRequest) (w : World db mongo)
      → Kept w
      → Kept (create_filtering_rule lib show_nat db mongo codec json s call req w).1
  unfolding create_filtering_rule Repository.create_filtering_rule
  Kept-create call req w h k =
      let r = Repository.stamped db mongo codec call (new_rule req) in
      let (failure, rows) = db.insert_rule r w.rows in
      let inserted : Kept (record w { rows = rows }) =
        λ j. IsConsecutive-of (keeps.insert_apart r w.rows j) (h j) in
      elim (Option-cases (validate_filtering_rule lib show_nat req)) [
        | inr (e, refused) ↦ IsConsecutive-of (ground arith) (h k)
        | inl admitted ↦ elim (Option-cases failure) [
          | inr (e, failed) ↦ IsConsecutive-of (ground arith) (inserted k)
          | inl taken ↦
              IsConsecutive-of (ground arith)
                (Kept-announced call r "create" none (record w { rows = rows }) inserted k)
        ]
      ]

  pub Kept-finish_update :
      (p : Update) (w : World db mongo)
      → Kept w
      → Kept (finish_update lib show_nat db mongo codec json s p w).1
  unfolding finish_update Repository.update_filtering_rule
  Kept-finish_update p w h k =
      let r = written lib show_nat db mongo codec json s p in
      let (answer, rows) = db.update_rule r w.rows in
      let updated : Kept (record w { rows = rows }) =
        λ j. IsConsecutive-of (keeps.update_apart r w.rows j) (h j) in
      elim (Result-cases (Repository.affected db mongo codec "failed to update rule" answer)) [
        | inr (e, failed) ↦ IsConsecutive-of (ground arith) (updated k)
        | inl (u, done) ↦ IsConsecutive-of (ground arith) (
            Kept-announced p.call r "update" (or_nil (codec.rule_to_map p.rule))
              (record w { rows = rows }) updated k)
      ]

  Kept-log_deletion :
      (call : Call) (id : String) (old : Option Fields) (w : World db mongo)
      → Kept w
      → Kept (log_deletion lib show_nat db mongo codec json s call id old w)
  Kept-log_deletion call id old w h k =
      elim (Bool-cases (s.audit_enabled && s.has_versioning_repo)) [
        | inr off ↦ IsConsecutive-of (ground arith) (h k)
        | inl on ↦
            IsConsecutive-of
              (ground (
                arith,
                numbers-create_audit_log lib show_nat db mongo codec json s numbers keeps call
                    (build_audit_log db mongo codec json call id "filtering" "delete" old none) w k,
              ))
              (h k)
      ]

  pub Kept-finish_deletion :
      (p : Deletion) (w : World db mongo)
      → Kept w
      → Kept (finish_deletion lib show_nat db mongo codec json s p w).1
  unfolding finish_deletion Repository.delete_filtering_rule
  Kept-finish_deletion p w h k =
      let (answer, rows) = db.delete_rule p.id w.rows in
      let deleted : Kept (record w { rows = rows }) = λ j.
        elim (keeps.delete_cascades p.id w.rows j) [
          | inl same ↦ IsConsecutive-of same (h j)
          | inr none_left ↦ IsConsecutive-of none_left tt
        ] in
      elim (Result-cases (Repository.affected db mongo codec "failed to delete rule" answer)) [
        | inr (e, failed) ↦ IsConsecutive-of (ground arith) (deleted k)
        | inl (u, done) ↦ IsConsecutive-of (ground arith) (
            Kept-published p.call "delete" p.id
              (log_deletion lib show_nat db mongo codec json s p.call p.id
                (or_nil (codec.rule_to_map p.rule)) (record w { rows = rows }))
              (Kept-log_deletion p.call p.id (or_nil (codec.rule_to_map p.rule))
                (record w { rows = rows }) deleted)
              k)
      ]

  -- A method whose second part keeps the numbers.
  Kept-and_then :
      {A B : Type 0} (finish : A → World db mongo → Result B × World db mongo)
      → ((p : A) (w : World db mongo) → Kept w → Kept (finish p w).1)
      → (r : Result A × World db mongo) → Kept r.1
      → Kept (and_then lib show_nat db mongo codec json s finish r).1
  Kept-and_then finish keep (ok p, w) h = keep p w h
  Kept-and_then finish keep (err e, w) h = h

  pub Kept-update :
      (call : Call) (id : String) (req : UpdateFilteringRuleRequest) (w : World db mongo)
      → Kept w
      → Kept (update_filtering_rule lib show_nat db mongo codec json s call id req w).1
  Kept-update call id req w h =
      subst (λ r. Kept r.1) (and_then-begin_update lib show_nat db mongo codec json s call id req w)
        (Kept-and_then _ Kept-finish_update _ (
          Kept-rows w (begin_update lib show_nat db mongo codec json s call id req w).1
            (rows-begin_update lib show_nat db mongo codec json s call id req w) h))

  pub Kept-delete :
      (call : Call) (id : String) (w : World db mongo)
      → Kept w
      → Kept (delete_filtering_rule lib show_nat db mongo codec json s call id w).1
  Kept-delete call id w h =
      subst (λ r. Kept r.1) (and_then-begin_deletion lib show_nat db mongo codec json s call id w)
        (Kept-and_then _ Kept-finish_deletion _ (
          Kept-rows w (begin_deletion lib show_nat db mongo codec json s call id w).1
            (rows-begin_deletion lib show_nat db mongo codec json s call id w) h))

  pub Kept-get :
      (id : String) (w : World db mongo)
      → Kept w
      → Kept (get_filtering_rule lib show_nat db mongo codec json s id w).1
  unfolding get_filtering_rule Repository.get_filtering_rule handle_not_found_error
  Kept-get id w h k = elim (Result-cases (db.select_rule id w.rows)) [
    | inr (e, failed) ↦ IsConsecutive-of (ground arith) (h k)
    | inl (answer, read) ↦ elim (Option-cases answer) [
      | inl missing ↦ IsConsecutive-of (ground arith) (h k)
      | inr (rule, there) ↦ IsConsecutive-of (ground arith) (h k)
    ]
  ]

  pub Kept-list :
      (call : Call) (w : World db mongo)
      → Kept w
      → Kept (list_filtering_rules lib show_nat db mongo codec json s call w).1
  unfolding list_filtering_rules Repository.list_filtering_rules
  Kept-list call w h k =
      elim (Result-cases (Repository.list_filtering_rules db mongo codec call.ctx w).0) [
        | inl (rules, listed) ↦ IsConsecutive-of (ground arith) (h k)
        | inr (e, failed) ↦ IsConsecutive-of (ground arith) (h k)
      ]
