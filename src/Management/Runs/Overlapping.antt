-- ===== src/Management/Runs/Overlapping.antt =====
-- The filtering rules under requests that overlap: between the two parts of an update, or of a deletion,
-- any other requests may come, whole or in parts.
use yeti.Base.{ℕ, String, ◌≡◌, sym, Option, none, List, [], ◌∷◌, ◌++◌, arith, inl, inr}
use mathlib.Core.Path.{subst}
use yeti.Errors.Result.{ok, Result-cases}
use yeti.Cel.{CelLib}
use yeti.Management.Notifier.{Json}
use yeti.Management.Requests.{CreateFilteringRuleRequest, UpdateFilteringRuleRequest}
use yeti.Management.Validator.{validate_filtering_rule, validate_update_filtering_rule}
use yeti.Management.Store.{Database, Collection, Codec, Call, World, FilteringRule}
use yeti.Management.Repository
use yeti.Management.Service.{Service, or_nil, build_audit_log}
use yeti.Management.FilteringRules.{new_rule, update_filtering_rule_fields, log_deletion}
use yeti.Management.Stored.{
  Serves, as_stored, set_columns, rows-announced, rows-create_audit_log, rows-publish_config_event,
}
use yeti.Management.Overlap.{
  Update, Deletion, begin_update, finish_update, begin_deletion, finish_deletion, written,
  begin_update_reads, begin_deletion_reads,
}
use yeti.Management.Runs.{Step, Reached, start, next, Holds, updated_row, Holds-Step}

-- A request that has read its rule, and has not written yet.
pub data Pending : Type 0 where
  updating : Update → Pending
  deleting : Deletion → Pending

module _ (lib : CelLib) (show_nat : ℕ → String) (db : Database) (mongo : Collection) (codec : Codec)
    (json : Json) (s : Service) (row : Database.State db → String → Option FilteringRule) where
  -- The worlds, and the pending requests, after any steps from `w₀` on.
  pub data Overlapping (w₀ : World db mongo) : World db mongo → List Pending → Type 0 where
    starts : Overlapping w₀ w₀ []
    steps :
        {w w' : World db mongo} {ps : List Pending}
        → Overlapping w₀ w ps
        → Step lib show_nat db mongo codec json s row w w'
        → Overlapping w₀ w' ps
    reads_update :
        {w w' : World db mongo} {ps : List Pending} (call : Call) (id : String)
        (req : UpdateFilteringRuleRequest) (p : Update)
        → Overlapping w₀ w ps
        → begin_update lib show_nat db mongo codec json s call id req w ≡ (ok p, w')
        → Overlapping w₀ w' (updating p ∷ ps)
    reads_deletion :
        {w w' : World db mongo} {ps : List Pending} (call : Call) (id : String) (p : Deletion)
        → Overlapping w₀ w ps
        → begin_deletion lib show_nat db mongo codec json s call id w ≡ (ok p, w')
        → Overlapping w₀ w' (deleting p ∷ ps)
    writes_update :
        {w : World db mongo} {ps : List Pending} (before after : List Pending) (p : Update)
        → Overlapping w₀ w ps
        → ps ≡ before ++ (updating p ∷ after)
        → Overlapping w₀ (finish_update lib show_nat db mongo codec json s p w).1 (before ++ after)
    writes_deletion :
        {w : World db mongo} {ps : List Pending} (before after : List Pending) (p : Deletion)
        → Overlapping w₀ w ps
        → ps ≡ before ++ (deleting p ∷ after)
        → Overlapping w₀
            (finish_deletion lib show_nat db mongo codec json s p w).1
            (before ++ after)

  -- Requests that do not overlap are a case of it.
  pub Overlapping-Reached :
      {w₀ w : World db mongo}
      → Reached lib show_nat db mongo codec json s row w₀ w
      → Overlapping w₀ w []
  Overlapping-Reached start = starts
  Overlapping-Reached (next before step) = steps (Overlapping-Reached before) step

  module _ (P : FilteringRule → Type 0) (serves : Serves db row) where
    -- A pending update is admitted, and the rule that it has read had the property.
    abbrev Fine : Pending → Type 0
    Fine (updating p) = (validate_update_filtering_rule lib show_nat p.req ≡ none) × P p.rule
    Fine (deleting p) = Unit

    abbrev pub AllFine : List Pending → Type 0
    AllFine [] = Unit
    AllFine (p ∷ ps) = Fine p × AllFine ps

    AllFine-append :
        (before after : List Pending) (p : Pending)
        → AllFine (before ++ (p ∷ after))
        → Fine p × AllFine (before ++ after)
    AllFine-append [] after p fine = fine
    AllFine-append (q ∷ before) after p (fine, all) =
        let (here, rest) = AllFine-append before after p all in (here, (fine, rest))

    module _
        (of_new : (call : Call) (req : CreateFilteringRuleRequest) (k : String)
          → validate_filtering_rule lib show_nat req ≡ none
          → P (as_stored serves.keep k (Repository.stamped db mongo codec call (new_rule req))))
        (of_updated : (call : Call) (req : UpdateFilteringRuleRequest) (old y : FilteringRule)
          → validate_update_filtering_rule lib show_nat req ≡ none
          → P old
          → P y
          → P (
              set_columns serves.keep
                (Repository.touched db mongo codec call (update_filtering_rule_fields req old))
                y)) where
      Holds-finish_update :
          (p : Update) (w : World db mongo)
          → Fine (updating p)
          → Holds lib show_nat db mongo codec json s row P serves w
          → Holds lib show_nat db mongo codec json s row P serves
              (finish_update lib show_nat db mongo codec json s p w).1
      unfolding finish_update Repository.update_filtering_rule
      Holds-finish_update p w (admitted, of_old) holds k x h =
          let r = written lib show_nat db mongo codec json s p in
          let (answer, rows) = db.update_rule r w.rows in
          elim (Result-cases answer) [
            | inr (e, failed) ↦ holds k x (ground (arith, serves.update_failed r w.rows rows e))
            | inl (n, done) ↦
                updated_row lib show_nat db mongo codec json s row P serves of_new of_updated p.call
                  p.req p.rule w.rows rows n k x admitted of_old (holds k) (ground arith)
                  (ground (
                    arith,
                    rows-announced lib show_nat db mongo codec json s row serves p.call r "update"
                        (or_nil (codec.rule_to_map p.rule)) (record w { rows = rows }) k,
                  ))
          ]

      Holds-finish_deletion :
          (p : Deletion) (w : World db mongo)
          → Holds lib show_nat db mongo codec json s row P serves w
          → Holds lib show_nat db mongo codec json s row P serves
              (finish_deletion lib show_nat db mongo codec json s p w).1
      unfolding finish_deletion Repository.delete_filtering_rule
      Holds-finish_deletion p w holds k x h =
          let (answer, rows) = db.delete_rule p.id w.rows in
          let old_value = or_nil (codec.rule_to_map p.rule) in
          let w₁ : World db mongo = record w { rows = rows } in
          elim (Result-cases answer) [
            | inr (e, failed) ↦ holds k x (ground (arith, serves.delete_failed p.id w.rows rows e))
            | inl (n, done) ↦ holds k x (
                ground (
                  arith,
                  serves.deleted p.id w.rows rows n k,
                  rows-create_audit_log lib show_nat db mongo codec json s row serves p.call
                      (build_audit_log db mongo codec json p.call p.id "filtering" "delete"
                        old_value none)
                      w₁ k,
                  rows-publish_config_event lib show_nat db mongo codec json s row serves p.call
                      "delete" p.id
                      (log_deletion lib show_nat db mongo codec json s p.call p.id old_value w₁),
                ))
          ]

      -- What the steps keep: the property of the table, and of what is pending.
      abbrev IsKept : World db mongo → List Pending → Type 0
      IsKept w ps = Holds lib show_nat db mongo codec json s row P serves w × AllFine ps

      IsKept-reads :
          (w w' : World db mongo) (ps : List Pending) (call : Call) (id : String)
          (req : UpdateFilteringRuleRequest) (p : Update)
          → begin_update lib show_nat db mongo codec json s call id req w ≡ (ok p, w')
          → IsKept w ps
          → IsKept w' (updating p ∷ ps)
      IsKept-reads w w' ps call id req p h (holds, fine) =
          let (same, (k, is, read), admitted, made) =
            begin_update_reads lib show_nat db mongo codec json s row serves call id req w w' p h in
          (
            subst (λ v. Holds lib show_nat db mongo codec json s row P serves v) (sym same) holds,
            (subst (λ q. Fine (updating q)) (sym made) (admitted, holds k p.rule read), fine),
          )

      -- Every rule in the table has the property, however the requests overlap.
      pub IsKept-Overlapping :
          {w₀ w : World db mongo} {ps : List Pending}
          → Holds lib show_nat db mongo codec json s row P serves w₀
          → Overlapping w₀ w ps
          → IsKept w ps
      IsKept-Overlapping before starts = (before, tt)
      IsKept-Overlapping before (steps run step) =
          let (holds, fine) = IsKept-Overlapping before run in
          (
            Holds-Step lib show_nat db mongo codec json s row P serves of_new of_updated step holds,
            fine,
          )
      IsKept-Overlapping before (reads_update call id req p run h) =
          IsKept-reads _ _ _ call id req p h (IsKept-Overlapping before run)
      IsKept-Overlapping before (reads_deletion call id p run h) =
          let (holds, fine) = IsKept-Overlapping before run in
          (
            subst (λ v. Holds lib show_nat db mongo codec json s row P serves v)
                (sym (
                  begin_deletion_reads lib show_nat db mongo codec json s row serves call id _ _ p
                    h))
                holds,
            (tt, fine),
          )
      IsKept-Overlapping before (writes_update qs rs p run e) =
          let (holds, fine) = IsKept-Overlapping before run in
          let (here, rest) = AllFine-append qs rs (updating p) (subst AllFine e fine) in
          (Holds-finish_update p _ here holds, rest)
      IsKept-Overlapping before (writes_deletion qs rs p run e) =
          let (holds, fine) = IsKept-Overlapping before run in
          let (here, rest) = AllFine-append qs rs (deleting p) (subst AllFine e fine) in
          (Holds-finish_deletion p _ holds, rest)
