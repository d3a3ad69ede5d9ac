-- ===== src/Errors/Kinds.antt =====
-- What the chain of an error decides: whether it is retried, its HTTP status, its kind.
use yeti.Base.{String, ◌≡◌, refl, Bool, true, false, not, Option, none, some, arith, ◌==◌}
use yeti.Errors.Chain.{
  App, Err, plain, wrap, retryable, fatal, skip_rule, app, app_of, AppErr, err_not_found,
  err_validation, err_conflict, is_final, fatal_in, retryable_in, is_retryable, is_fatal,
  as_retryable, as_fatal, to_err, wrap_app, is_not_found, is_validation, is_conflict,
  to_http_status,
}

-- No link of the chain is a marker of pkg/retry.
abbrev pub IsUnmarked : Err → Type 0
IsUnmarked (plain m) = Unit
IsUnmarked (wrap p e) = IsUnmarked e
IsUnmarked (retryable e) = ⊥
IsUnmarked (fatal e) = ⊥
IsUnmarked (skip_rule r m) = Unit
IsUnmarked (app a) = Unit
IsUnmarked (app_of a e) = IsUnmarked e

abbrev opposite : Option Bool → Option Bool
opposite none = none
opposite (some b) = some (not b)

retryable_in-opposite : (e : Err) → IsUnmarked e → retryable_in e ≡ opposite (fatal_in e)
unfolding retryable_in fatal_in
retryable_in-opposite (plain m) h = refl
retryable_in-opposite (wrap p e) h = retryable_in-opposite e h
retryable_in-opposite (retryable e) h = absurd h
retryable_in-opposite (fatal e) h = absurd h
retryable_in-opposite (skip_rule r m) h = refl
retryable_in-opposite (app a) h = ground arith
retryable_in-opposite (app_of a e) h = ground (arith, retryable_in-opposite e h)

-- Of an error whose cause holds no marker of pkg/retry, exactly one of IsRetryable and IsFatal is
-- true, however deep the chain is and whatever was set by AsRetryable and AsFatal.
pub is_retryable-not-is_fatal :
    (a : App) (c : Err) → IsUnmarked c → is_retryable a (some c) ≡ not (is_fatal a (some c))
unfolding is_retryable is_fatal
is_retryable-not-is_fatal a c h = ground (arith, retryable_in-opposite c h)

-- A NotFound or validation error wrapped round an error that NewRetryableError marked, with no
-- other FatalError below it, says both that it can be retried and that it is fatal.
pub marked_contradictory :
    (a : App) (e : Err)
    → a.retryable_mark ≡ none
    → is_final a ≡ true
    → fatal_in e ≡ none
    → (is_retryable a (some (retryable e)) ≡ true) × (is_fatal a (some (retryable e)) ≡ true)
unfolding is_retryable is_fatal
marked_contradictory a e m h f = ground arith

-- AsRetryable and AsFatal overrule the code and the cause of any error, and are read in every
-- chain that reaches the error through `%w`; the status does not change.
pub mark_overrules :
    (e : AppErr) (p : String)
    → let r = wrap p (to_err (as_retryable e)) in
      let f = wrap p (to_err (as_fatal e)) in
      (retryable_in r ≡ some true)
      × (fatal_in r ≡ some false)
      × (retryable_in f ≡ some false)
      × (fatal_in f ≡ some true)
      × (to_http_status r ≡ e.base.status)
      × (to_http_status f ≡ e.base.status)
unfolding retryable_in fatal_in as_retryable as_fatal to_http_status
mark_overrules e p = ground arith

-- The outermost application error decides: `Wrap(err, appErr)` has the status and the kind of
-- `appErr` whatever `err` was, and so has each `fmt.Errorf("…: %w", …)` and marker round it.
pub wrap_app_decides :
    (a : App) (e : Err) {w : Err}
    → wrap_app (some e) a ≡ some w
    → (p : String)
    → (to_http_status (wrap p (retryable (fatal w))) ≡ a.status)
      × (is_not_found (wrap p (retryable (fatal w))) ≡ (a.code == err_not_found.code))
      × (is_validation (wrap p (retryable (fatal w))) ≡ (a.code == err_validation.code))
      × (is_conflict (wrap p (retryable (fatal w))) ≡ (a.code == err_conflict.code))
unfolding wrap_app to_http_status is_not_found is_validation is_conflict
wrap_app_decides a e h p = ground arith
