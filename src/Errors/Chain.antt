-- ===== src/Errors/Chain.antt =====
-- pkg/errors/errors.go: the errors as chains, and what `errors.As` finds in them. The markers
-- of pkg/retry/retry.go are links of the same chains.
use yeti.Base.{ℕ, String, Bool, true, false, not, Option, none, some, ◌==◌, ◌||◌, ◌&&◌, value_or}

-- `*errors.Error` without its cause. `details` is the address of its map, `none` for a nil map.
pub record App : Type 0 where
  pub code : String
  pub message : String
  pub status : ℕ
  pub details : Option ℕ
  pub retryable_mark : Option Bool

-- A Go `error`; a nil error is `none` of an `Option Err`.
-- `plain` stands for every error with no chain below it, `wrap p e` for `fmt.Errorf("p: %w", e)`.
pub data Err : Type 0 where
  plain : String → Err
  wrap : String → Err → Err
  retryable : Err → Err
  fatal : Err → Err
  skip_rule : String → String → Err
  app : App → Err
  app_of : App → Err → Err

-- The package's variables. `init` numbers their maps from 0.
abbrev named : String → String → ℕ → ℕ → App
named code message status address = record {
  code = code;
  message = message;
  status = status;
  details = some address;
  retryable_mark = none;
}

abbrev pub err_not_found : App
err_not_found = named "NOT_FOUND" "resource not found" 404 0

abbrev pub err_validation : App
err_validation = named "VALIDATION_ERROR" "validation failed" 400 1

abbrev pub err_internal : App
err_internal = named "INTERNAL_ERROR" "internal server error" 500 2

abbrev pub err_conflict : App
err_conflict = named "CONFLICT" "resource conflict" 409 3

abbrev pub err_unauthorized : App
err_unauthorized = named "UNAUTHORIZED" "unauthorized" 401 4

abbrev pub err_forbidden : App
err_forbidden = named "FORBIDDEN" "forbidden" 403 5

abbrev pub err_timeout : App
err_timeout = named "TIMEOUT" "operation timed out" 408 6

abbrev pub err_service_unavailable : App
err_service_unavailable = named "SERVICE_UNAVAILABLE" "service unavailable" 503 7

-- The errors that are neither retried nor blamed on the service.
abbrev pub is_final : App → Bool
is_final e = e.code == err_validation.code || e.code == err_not_found.code

-- `(*Error).IsFatal`, given the verdict of the first FatalError in the cause's chain.
abbrev is_fatal_by : App → Option Bool → Bool
is_fatal_by e in_cause = elim e.retryable_mark [
  | some r ↦ not r
  | none ↦ value_or in_cause (is_final e)
]

-- `(*Error).IsRetryable`, given the verdicts of the first RetryableError and FatalError in the
-- cause's chain.
abbrev is_retryable_by : App → Option Bool → Option Bool → Bool
is_retryable_by e retryable_in_cause fatal_in_cause = elim e.retryable_mark [
  | some r ↦ r
  | none ↦ elim retryable_in_cause [
    | some r ↦ r
    | none ↦ elim fatal_in_cause [
      | some f ↦ not f
      | none ↦ not (e.code == err_validation.code) && not (e.code == err_not_found.code)
    ]
  ]
]

-- `errors.As(err, &fatalErr)`, and what `fatalErr.IsFatal()` says: `none` if there is none.
unfoldable pub fatal_in : Err → Option Bool
fatal_in (plain m) = none
fatal_in (wrap p e) = fatal_in e
fatal_in (retryable e) = fatal_in e
fatal_in (fatal e) = some true
fatal_in (skip_rule r m) = none
fatal_in (app a) = some (is_fatal_by a none)
fatal_in (app_of a e) = some (is_fatal_by a (fatal_in e))

-- `errors.As(err, &retryableErr)`, and what `retryableErr.IsRetryable()` says.
unfoldable pub retryable_in : Err → Option Bool
unfolding fatal_in
retryable_in (plain m) = none
retryable_in (wrap p e) = retryable_in e
retryable_in (retryable e) = some true
retryable_in (fatal e) = retryable_in e
retryable_in (skip_rule r m) = none
retryable_in (app a) = some (is_retryable_by a none none)
retryable_in (app_of a e) = some (is_retryable_by a (retryable_in e) (fatal_in e))

-- An `*Error` with its cause.
pub record AppErr : Type 0 where
  pub base : App
  pub cause : Option Err

-- `errors.As(err, &appErr)`
unfoldable pub as_app : Err → Option AppErr
as_app (plain m) = none
as_app (wrap p e) = as_app e
as_app (retryable e) = as_app e
as_app (fatal e) = as_app e
as_app (skip_rule r m) = none
as_app (app a) = some (record { base = a; cause = none })
as_app (app_of a e) = some (record { base = a; cause = some e })

-- `(*Error).IsRetryable` and `(*Error).IsFatal`
unfoldable pub is_retryable : App → Option Err → Bool
unfolding retryable_in fatal_in
is_retryable e none = is_retryable_by e none none
is_retryable e (some c) = is_retryable_by e (retryable_in c) (fatal_in c)

unfoldable pub is_fatal : App → Option Err → Bool
unfolding fatal_in
is_fatal e none = is_fatal_by e none
is_fatal e (some c) = is_fatal_by e (fatal_in c)

-- `WithCause`: the cause that was there is replaced.
unfoldable pub with_cause : AppErr → Err → AppErr
with_cause e cause = record { base = e.base; cause = some cause }

unfoldable pub as_retryable : AppErr → AppErr
as_retryable e = record { base = record (e.base) { retryable_mark = some true }; cause = e.cause }

unfoldable pub as_fatal : AppErr → AppErr
as_fatal e = record { base = record (e.base) { retryable_mark = some false }; cause = e.cause }

-- An `*Error` as an error.
abbrev pub to_err : AppErr → Err
to_err e = elim e.cause [ none ↦ app e.base | some c ↦ app_of e.base c ]

-- `Wrap(err, appErr)`, for an `appErr` with no cause of its own, which is every use of it.
unfoldable pub wrap_app : Option Err → App → Option Err
wrap_app none a = none
wrap_app (some e) a = some (app_of a e)

abbrev has_code : App → Option AppErr → Bool
has_code a none = false
has_code a (some e) = e.base.code == a.code

unfoldable pub is_not_found : Err → Bool
unfolding as_app
is_not_found err = has_code err_not_found (as_app err)

unfoldable pub is_validation : Err → Bool
unfolding as_app
is_validation err = has_code err_validation (as_app err)

unfoldable pub is_conflict : Err → Bool
unfolding as_app
is_conflict err = has_code err_conflict (as_app err)

unfoldable pub to_http_status : Err → ℕ
unfolding as_app
to_http_status err = elim (as_app err) [ some e ↦ e.base.status | none ↦ 500 ]

-- `NewRetryableError` and `NewFatalError`: a nil error stays nil.
unfoldable pub new_retryable_error : Option Err → Option Err
new_retryable_error none = none
new_retryable_error (some e) = some (retryable e)

unfoldable pub new_fatal_error : Option Err → Option Err
new_fatal_error none = none
new_fatal_error (some e) = some (fatal e)
