-- ===== src/Tests/Filtering.antt =====
-- The filtering service.
use yeti.Base.{◌≡◌, refl, String, true, false, none, List, [], ◌∷◌}
use yeti.Base.Int.{pos}
use yeti.Errors.Chain.{plain}
use yeti.Errors.Result.{ok, err}
use yeti.Broker.Producer.{Producer}
use yeti.Cel.{filter_variables, evaluate_filter}
use yeti.Filtering.{Rule, Service, filter, handle_evaluation_error}
use yeti.Filtering.Verdict.{passes, holds, before_stop, ids_that_hold, filter_verdict}
use yeti.Filtering.Reload.{reload, message, last_loaded, run, run_snapshot}
use yeti.Tests.Fixtures.{words, live, order}

abbrev rule : String → String → Rule
rule id expression = record {
  id = id;
  name = id;
  expression = expression;
  priority = pos 1;
  enabled = true;
  created_at = 1;
  updated_at = 1;
}

abbrev service : List Rule → String → Service words
service rules on_error = record {
  rules = rules;
  filtering_config = record { on_error = on_error; interval_seconds = pos 60 };
  evaluator = filter_variables;
}

abbrev strict : Service words
strict = service (rule "a" "yes" ∷ rule "b" "error" ∷ rule "c" "yes" ∷ []) "deny"

abbrev lenient : Service words
lenient = service (rule "a" "yes" ∷ rule "b" "error" ∷ rule "c" "yes" ∷ []) "allow"

filter_verdict_example : filter words strict live order ≡ ok (false, "a" ∷ [])
unfolding passes holds before_stop ids_that_hold evaluate_filter handle_evaluation_error
filter_verdict_example = filter_verdict words strict live order (λ k. refl)

abbrev works : Producer
works m = none

run_snapshot_example :
    run words strict
      (reload (ok (rule "n" "no" ∷ [])) ∷ reload (err (plain "timeout")) ∷ message live order ∷ [])
    ≡ ok (false, []) ∷ []
unfolding run last_loaded filter evaluate_filter
run_snapshot_example =
    run_snapshot words (reload (ok (rule "n" "no" ∷ [])) ∷ reload (err (plain "timeout")) ∷ [])
      strict live order
