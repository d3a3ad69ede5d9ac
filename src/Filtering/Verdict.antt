-- ===== src/Filtering/Verdict.antt =====
-- What a pass of the rules decides, against a description without the loop.
use yeti.Base.{
  ℕ, zero, suc, ◌+◌, ◌<◌, String, ◌≡◌, refl, Bool, true, false, ◌&&◌, none, some, List, [], ◌∷◌,
  ◌++◌, arith, if◌then◌else◌,
}
use mathlib.Core.List.{append-nil, append_assoc}
use yeti.Base.Lists.{all}
use yeti.Model.Message.{MessageEnvelope}
use yeti.Errors.Chain.{Err}
use yeti.Errors.Result.{ok, err, Context}
use yeti.Cel.{CelLib, evaluate_filter}
use yeti.Filtering.{Rule, deny, skip, handle_evaluation_error, Service, evaluate_rules, filter}

module _ (lib : CelLib) (s : Service lib) (ctx : Context) (msg : MessageEnvelope) where
  -- The rule holds of the message.
  unfoldable pub holds : Rule → Bool
  holds r = elim (evaluate_filter lib s.evaluator ctx r.expression msg) [ ok b ↦ b | err e ↦ false ]

  -- The rule does not stop the message: it holds, or it fails to be evaluated and the fallback is
  -- not "deny".
  unfoldable pub passes : Rule → Bool
  passes r = elim (evaluate_filter lib s.evaluator ctx r.expression msg) [
    | ok b ↦ b
    | err e ↦ elim (handle_evaluation_error s.filtering_config) [ deny ↦ false | skip ↦ true ]
  ]

  -- The rules in front of the first that stops the message.
  unfoldable pub before_stop : List Rule → List Rule
  before_stop [] = []
  before_stop (r ∷ rules) = if passes r then r ∷ before_stop rules else []

  unfoldable pub ids_that_hold : List Rule → List String
  ids_that_hold [] = []
  ids_that_hold (r ∷ rules) =
      let rest = ids_that_hold rules in if holds r then r.id ∷ rest else rest

  evaluate_rules_lem :
      (i : ℕ) (rules : List Rule) (applied : List String)
      → ((k : ℕ) → ctx.err_at k ≡ none)
      → evaluate_rules lib s ctx i rules msg applied
        ≡ ok (all passes rules, applied ++ ids_that_hold (before_stop rules))
  unfolding evaluate_rules holds passes before_stop ids_that_hold
  evaluate_rules_lem i [] applied live = rw append-nil
  evaluate_rules_lem i (r ∷ rules) applied live = ground (
    arith,
    live i,
    evaluate_rules_lem (suc i) rules applied live,
    evaluate_rules_lem (suc i) rules (applied ++ (r.id ∷ [])) live,
    append-nil applied,
    append_assoc applied (r.id ∷ []) (ids_that_hold (before_stop rules)),
  )

  -- While the context is live, `Filter` returns no error. The message passes exactly when no rule
  -- stops it, and the rules reported as applied are those that hold among the rules in front of the
  -- first that stops it, in the order of the rules.
  pub filter_verdict :
      ((k : ℕ) → ctx.err_at k ≡ none)
      → filter lib s ctx msg ≡ ok (all passes s.rules, ids_that_hold (before_stop s.rules))
  unfolding filter
  filter_verdict live = evaluate_rules_lem 0 s.rules [] live

  -- When no rule stops the message, all of them are in front of the stop.
  pub before_stop-all : (rules : List Rule) → all passes rules ≡ true → before_stop rules ≡ rules
  unfolding before_stop
  before_stop-all [] h = refl
  before_stop-all (r ∷ rules) h = ground (arith, before_stop-all rules)

  -- The rules have an entry at index `n`, and no rule in front of it stops the message.
  unfoldable pub reaches : ℕ → List Rule → Bool
  reaches n [] = false
  reaches zero (r ∷ rules) = true
  reaches (suc n) (r ∷ rules) = passes r && reaches n rules

  evaluate_rules_cancelled :
      (i n j : ℕ) (rules : List Rule) (applied : List String) {e : Err}
      → j ≡ i + n
      → ((k : ℕ) → k < j → ctx.err_at k ≡ none)
      → ctx.err_at j ≡ some e
      → reaches n rules ≡ true
      → evaluate_rules lib s ctx i rules msg applied ≡ err e
  unfolding evaluate_rules reaches passes
  evaluate_rules_cancelled i n j [] applied at live done h = cc
  evaluate_rules_cancelled i zero j (r ∷ rules) applied at live done h = ground arith
  evaluate_rules_cancelled i (suc n) j (r ∷ rules) applied at live done h = ground (
    arith,
    live i,
    evaluate_rules_cancelled (suc i) n j rules applied (omega arith) live done,
    evaluate_rules_cancelled (suc i) n j rules (applied ++ (r.id ∷ [])) (omega arith) live done,
  )

  -- If the context ends before the check in front of rule `n`, and no earlier rule stops the message,
  -- `Filter` returns the context's error, and neither a verdict nor applied rules.
  pub filter_cancelled :
      (n : ℕ) {e : Err}
      → ((k : ℕ) → k < n → ctx.err_at k ≡ none)
      → ctx.err_at n ≡ some e
      → reaches n s.rules ≡ true
      → filter lib s ctx msg ≡ err e
  unfolding filter
  filter_cancelled n live done h =
      evaluate_rules_cancelled 0 n n s.rules [] (omega arith) live done h
