-- ===== src/Management/Repository.antt =====
-- internal/management/repository.go: the filtering rules in PostgreSQL. A rule that a method is given
-- by a pointer, and changes, is part of its result.
use yeti.Base.{ℕ, String, ◌<>◌, Bool, ◌||◌, nat_eq, none, some, List, ◌==◌, if◌then◌else◌}
use yeti.Model.Value.{text}
use yeti.Errors.Chain.{Err, plain, wrap, err_conflict, with_cause}
use yeti.Errors.Details.{Heap, error_text}
use yeti.Errors.Result.{Result, ok, err, ◌>>=◌, wrap_err, Context}
use yeti.Errors.Rows.{scan_rows_live}
use yeti.Management.Store.{
  Database, Collection, Codec, Call, World, FilteringRule, bare, fail_detail, Action,
}

module _ (db : Database) (mongo : Collection) (codec : Codec) where
  -- Whether the text of an error names one of two things.
  abbrev pub mentions : Heap → Err → String → String → Bool
  mentions h e a b = codec.contains (error_text h e) a || codec.contains (error_text h e) b

  -- The rule as it is inserted: `CreateFilteringRule` sets the ID and the times.
  abbrev pub stamped : Call → FilteringRule → FilteringRule
  stamped call rule = record rule {
    id = if rule.id == "" then call.rule_uuid else rule.id;
    created_at = call.rule_now;
    updated_at = call.rule_now;
  }

  abbrev insert_failed : FilteringRule → Err → Action (World db mongo) FilteringRule
  insert_failed rule e w =
      if db.unique_violation e || mentions w.heap e "duplicate key" "unique constraint"
      then fail_detail (with_cause (bare err_conflict) e) "message"
          (text ("rule with name '" <> rule.name <> "' already exists")) w
      else (err (wrap "failed to create rule" e), w)

  unfoldable pub create_filtering_rule :
      Call → FilteringRule → Action (World db mongo) FilteringRule
  create_filtering_rule call rule w =
      let (failure, rows) = db.insert_rule (stamped call rule) w.rows in
      let w' = record w { rows = rows } in
      elim failure [ none ↦ (ok (stamped call rule), w') | some e ↦ insert_failed rule e w' ]

  unfoldable pub get_filtering_rule : String → Action (World db mongo) FilteringRule
  get_filtering_rule id w = elim (db.select_rule id w.rows) [
    | err e ↦ (err (wrap "failed to get rule" e), w)
    | ok none ↦ (err (wrap "rule not found" (plain "sql: no rows in result set")), w)
    | ok (some rule) ↦ (ok rule, w)
  ]

  -- `rows.Err()` is not looked at.
  unfoldable pub list_filtering_rules : Context → Action (World db mongo) (List FilteringRule)
  list_filtering_rules ctx w = (
    (wrap_err "failed to list rules" (db.select_rules w.rows)
        >>= scan_rows_live "failed to scan rule" ctx.err_at 0),
    w,
  )

  -- The check of `RowsAffected` after a statement.
  abbrev pub affected : String → Result (Result ℕ) → Result (Unit {0})
  affected prefix (err e) = err (wrap prefix e)
  affected prefix (ok (err e)) = err e
  affected prefix (ok (ok n)) = if nat_eq n 0 then err (plain "rule not found") else ok tt

  abbrev pub touched : Call → FilteringRule → FilteringRule
  touched call rule = record rule { updated_at = call.rule_now }

  abbrev with_rule : FilteringRule → Result (Unit {0}) → Result FilteringRule
  with_rule rule (ok u) = ok rule
  with_rule rule (err e) = err e

  unfoldable pub update_filtering_rule :
      Call → FilteringRule → Action (World db mongo) FilteringRule
  update_filtering_rule call rule w =
      let (answer, rows) = db.update_rule (touched call rule) w.rows in
      (
        with_rule (touched call rule) (affected "failed to update rule" answer),
        record w { rows = rows },
      )

  unfoldable pub delete_filtering_rule : String → Action (World db mongo) (Unit {0})
  delete_filtering_rule id w =
      let (answer, rows) = db.delete_rule id w.rows in
      (affected "failed to delete rule" answer, record w { rows = rows })
