-- ===== src/Tests/Retry.antt =====
-- The retries, with a library that calls again at once.
use yeti.Base.{ℕ, zero, suc, ◌≤◌, ◌<◌, ◌≡◌, refl, Option, none, some, arith, inl}
use yeti.Base.Int.{ℤ, pos}
use yeti.Base.Lists.{length}
use yeti.Errors.Chain.{Err, plain, wrap, err_internal, as_retryable, to_err, as_app}
use yeti.Retry.{
  Attempt, success, permanent, transient, Policy, BackOff, Documented, Persists,
  retry_with_callback,
}
use yeti.Retry.Attempts.{allowed, retry_with_callback_bounds}
use yeti.Retry.Outcomes.{retry_with_callback_app}

abbrev settle : {S : Type 0} → Attempt × S → Option Err × S
settle (success, s) = (none, s)
settle (permanent e, s) = (some e, s)
settle (transient e, s) = (some e, s)

unfoldable pub loop : (S : Type 0) → ℕ → (S → Attempt × S) → S → Option Err × S
loop S zero op s = settle (op s)
loop S (suc n) op s = elim (op s).0 [
  | success ↦ (none, (op s).1)
  | permanent e ↦ (some e, (op s).1)
  | transient e ↦ loop S n op (op s).1
]

abbrev pub at_once : BackOff
at_once = record { retry = λ S p n op s. loop S n op s }

loop_success :
    (S : Type 0) (n : ℕ) (op : S → Attempt × S) (s s' : S)
    → op s ≡ (success, s')
    → loop S n op s ≡ (none, s')
unfolding loop
loop_success S zero op s s' h = ground arith
loop_success S (suc n) op s s' h = ground arith

loop_permanent :
    (S : Type 0) (n : ℕ) (op : S → Attempt × S) (s s' : S) (e : Err)
    → op s ≡ (permanent e, s')
    → loop S n op s ≡ (some e, s')
unfolding loop
loop_permanent S zero op s s' e h = ground arith
loop_permanent S (suc n) op s s' e h = ground arith

loop_transient :
    (S : Type 0) (n : ℕ) (op : S → Attempt × S) (s s' : S) (e : Err)
    → op s ≡ (transient e, s')
    → loop S (suc n) op s ≡ loop S n op s'
unfolding loop
loop_transient S n op s s' e h = ground arith

loop_last :
    (S : Type 0) (op : S → Attempt × S) (s s' : S) (e : Err)
    → op s ≡ (transient e, s')
    → loop S 0 op s ≡ (some e, s')
unfolding loop
loop_last S op s s' e h = ground arith

pub at_once-Documented : Documented at_once
at_once-Documented = record {
  at_success = λ S p n op s s' h. loop_success S n op s s' h;
  at_permanent = λ S p n op s s' e h. loop_permanent S n op s s' e h;
  at_last = λ S p op s s' e h. (e, loop_last S op s s' e h);
  at_other = λ S p n op s s' e h. inl (loop_transient S n op s s' e h);
}

pub at_once-Persists : Persists at_once
at_once-Persists = record {
  again = λ S p n op s s' e h. loop_transient S n op s s' e h;
  last = λ S p op s s' e h. loop_last S op s s' e h;
}

abbrev pub policy : ℤ → Policy
policy n = record {
  max_attempts = n;
  initial_interval = pos 1;
  max_interval = pos 1;
  multiplier = 0x4000000000000000;
  max_elapsed_time = pos 0;
}

-- An operation that counts its calls and always answers the same.
abbrev always : Err → ℕ → Option Err × ℕ
always e n = (some e, suc n)

retry_with_callback_bounds_example :
    let r = (retry_with_callback ℕ (always (plain "down")) at_once (policy (pos 0)) 0).1 in
    (1 ≤ r.attempt)
    × (r.attempt ≤ allowed (policy (pos 0)))
    × (length r.notices < allowed (policy (pos 0)))
retry_with_callback_bounds_example =
    retry_with_callback_bounds ℕ (always (plain "down")) at_once at_once-Documented (policy (pos 0))
      0

-- An internal error that `AsRetryable` marked.
abbrev marked : Err
marked = to_err (as_retryable (record { base = err_internal; cause = none }))

retry_with_callback_app_example :
    ((retry_with_callback ℕ (always (wrap "save" marked)) at_once (policy (pos 5)) 0).0
      ≡ some (wrap "save" marked))
    × ((retry_with_callback ℕ (always (wrap "save" marked)) at_once (policy (pos 5)) 0).1.attempt
        ≡ 1)
unfolding as_app as_retryable
retry_with_callback_app_example =
    retry_with_callback_app ℕ (always (wrap "save" marked)) at_once at_once-Documented
      (policy (pos 5)) 0 refl refl
