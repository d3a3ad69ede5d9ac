-- ===== src/Management/Invariants.antt =====
-- What is true of the filtering rules that are stored, after any requests.
use yeti.Base.{
  ℕ, String, ◌≡◌, ◌⊎◌, inl, inr, Option, none, some, List, [], arith, Option-cases, text-cases,
}
use yeti.Errors.Result.{ok, Result-cases}
use yeti.Cel.{CelLib, new_evaluator, validate_filter_expression}
use yeti.Management.Notifier.{Json}
use yeti.Management.Requests.{CreateFilteringRuleRequest, UpdateFilteringRuleRequest}
use yeti.Management.Validator.{validate_filtering_rule, validate_update_filtering_rule}
use yeti.Management.Store.{Database, Collection, Codec, World, FilteringRule}
use yeti.Management.Service.{Service}
use yeti.Management.FilteringRules.{update_filtering_rule_fields}
use yeti.Management.Stored.{Serves}
use yeti.Management.Runs.{Reached}
use yeti.Management.Runs.Overlapping.{Pending, Overlapping, Overlapping-Reached, IsKept-Overlapping}

module _ (lib : CelLib) (show_nat : ℕ → String) where
  -- An expression that the filtering service admits as a filter, or none.
  abbrev pub UsableExpression : String → Type 0
  UsableExpression expression =
      (expression ≡ "")
      ⊎ ((env : lib.Env) × (new_evaluator lib ≡ ok env)
          × (validate_filter_expression lib env expression ≡ none))

  UsableExpression-validate_filtering_rule :
      (req : CreateFilteringRuleRequest)
      → validate_filtering_rule lib show_nat req ≡ none
      → UsableExpression req.expression
  unfolding validate_filtering_rule
  UsableExpression-validate_filtering_rule req h = elim (Result-cases (new_evaluator lib)) [
    | inr (e, failed) ↦ absurd (ground arith)
    | inl (env, made) ↦ inr (env, made, ground arith)
  ]

  UsableExpression-update_filtering_rule_fields :
      (req : UpdateFilteringRuleRequest) (old : FilteringRule)
      → validate_update_filtering_rule lib show_nat req ≡ none
      → UsableExpression old.expression
      → UsableExpression (update_filtering_rule_fields req old).expression
  unfolding validate_update_filtering_rule update_filtering_rule_fields
  UsableExpression-update_filtering_rule_fields req old h usable =
      elim (Option-cases req.expression) [
        | inl kept ↦ rw kept usable
        | inr (expression, given) ↦ rw given (elim (text-cases expression "") [
          | inl (e, blank) ↦ inl blank
          | inr (e, written) ↦ elim (Result-cases (new_evaluator lib)) [
            | inr (x, failed) ↦ absurd (ground arith)
            | inl (env, made) ↦ inr (env, made, ground arith)
          ]
        ])
      ]

  module _ (db : Database) (mongo : Collection) (codec : Codec) (json : Json) (s : Service)
      (row : Database.State db → String → Option FilteringRule) (serves : Serves db row) where
    -- Over a database that keeps its rows as SQL says, after any requests to create, update, delete,
    -- read and list filtering rules, refused and failed ones included, each rule that is stored has an
    -- empty expression, or one that the filtering service admits as a filter, if that was so before
    -- them, also when between the reading and the writing of an update or a deletion other requests come.
    pub Overlapping-UsableExpression :
        (w₀ w : World db mongo) (ps : List Pending)
        → ((k : String) (r : FilteringRule)
            → row w₀.rows k ≡ some r
            → UsableExpression r.expression)
        → Overlapping lib show_nat db mongo codec json s row w₀ w ps
        → (k : String) (r : FilteringRule) → row w.rows k ≡ some r
        → UsableExpression r.expression
    Overlapping-UsableExpression w₀ w ps before run =
        (IsKept-Overlapping lib show_nat db mongo codec json s row
          (λ r. UsableExpression r.expression) serves
          (λ call req k admitted. UsableExpression-validate_filtering_rule req admitted)
          (λ call req old y admitted of_old of_y.
            UsableExpression-update_filtering_rule_fields req old admitted of_old)
          before run).0

    -- The same of requests one after the other.
    pub Reached-UsableExpression :
        (w₀ w : World db mongo)
        → ((k : String) (r : FilteringRule)
            → row w₀.rows k ≡ some r
            → UsableExpression r.expression)
        → Reached lib show_nat db mongo codec json s row w₀ w
        → (k : String) (r : FilteringRule) → row w.rows k ≡ some r
        → UsableExpression r.expression
    Reached-UsableExpression w₀ w before reached =
        Overlapping-UsableExpression w₀ w [] before
          (Overlapping-Reached lib show_nat db mongo codec json s row reached)
