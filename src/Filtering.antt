-- ===== src/Filtering.antt =====
-- internal/filtering: the rules, their evaluation on a message, the fallback on errors, and the
-- reloads. Metrics, logs and traces are left out: they change nothing that the code reads.
pub mod Verdict
pub mod Reload
pub mod Repository
pub mod Handle
use yeti.Base.{
  ℕ, suc, String, Bool, true, false, Option, none, some, List, [], ◌∷◌, ◌++◌, map, ◌==◌,
  if◌then◌else◌,
}
use yeti.Base.Int.{ℤ}
use yeti.Model.Message.{MessageEnvelope}
use yeti.Errors.Chain.{Err, wrap}
use yeti.Errors.Result.{Result, ok, err, wrap_err, Context}
use yeti.Cel.{CelLib, new_evaluator, evaluate_filter}

pub record Rule : Type 0 where
  pub id : String
  pub name : String
  pub expression : String
  pub priority : ℤ
  pub enabled : Bool
  pub created_at : ℕ
  pub updated_at : ℕ

pub data ErrorHandlingStatus : Type 0 where
  deny skip : ErrorHandlingStatus

-- The fallbacks of internal/constants, and the rest of the configuration that the service reads.
pub record FilteringConfig : Type 0 where
  pub on_error : String
  pub interval_seconds : ℤ

-- What `errorHandlingStatus` a rule's error leads to.
unfoldable pub handle_evaluation_error : FilteringConfig → ErrorHandlingStatus
handle_evaluation_error cfg =
    if cfg.on_error == "allow" then skip else if cfg.on_error == "deny" then deny else skip

unfoldable pub get_rule_ids : List Rule → List String
get_rule_ids = map (λ r. r.id)

module _ (lib : CelLib) where
  -- The rules are replaced as a whole, under a lock: one value of the record is what a caller of
  -- `getActiveRules` copies.
  pub record Service : Type 0 where
    pub rules : List Rule
    pub filtering_config : FilteringConfig
    pub evaluator : CelLib.Env lib

  unfoldable pub new_service : FilteringConfig → Result Service
  new_service cfg = elim (wrap_err "failed to create CEL evaluator" (new_evaluator lib)) [
    | ok env ↦ ok (record { rules = []; filtering_config = cfg; evaluator = env })
    | err e ↦ err e
  ]

  -- The loop over the rules from index `i` on.
  unfoldable pub evaluate_rules :
      Service
      → Context
      → ℕ
      → List Rule
      → MessageEnvelope
      → List String
      → Result (Bool × List String)
  unfolding handle_evaluation_error
  evaluate_rules s ctx i [] msg applied = ok (true, applied)
  evaluate_rules s ctx i (r ∷ rules) msg applied =
      let skipped = evaluate_rules s ctx (suc i) rules msg applied in
      let passed = evaluate_rules s ctx (suc i) rules msg (applied ++ (r.id ∷ [])) in
      elim (ctx.err_at i) [
        | some e ↦ err e
        | none ↦ elim (evaluate_filter lib s.evaluator ctx r.expression msg) [
          | err e ↦ elim (handle_evaluation_error s.filtering_config) [
            | deny ↦ ok (false, applied)
            | skip ↦ skipped
          ]
          | ok false ↦ ok (false, applied)
          | ok true ↦ passed
        ]
      ]

  unfoldable pub filter : Service → Context → MessageEnvelope → Result (Bool × List String)
  unfolding evaluate_rules
  filter s ctx msg = evaluate_rules s ctx 0 s.rules msg []

  -- `ReloadRules`, for what `repo.GetActiveRules` answers.
  unfoldable pub reload_rules : Result (List Rule) → Service → Service × Option Err
  reload_rules (ok rules) s = (record s { rules = rules }, none)
  reload_rules (err e) s = (s, some e)
