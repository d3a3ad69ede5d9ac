-- ===== src/Health.antt =====
-- pkg/health/health.go: the registry of checkers. A checker is its name and what its check answers;
-- the three checkers ping a server, which is a parameter, and the times are left out.
use yeti.Base.{
  String, ◌≡◌, ◌↔◌, ◌≢◌, Bool, true, ◌&&◌, not, Option, none, some, List, [], ◌∷◌, arith, is_some,
  if◌then◌else◌,
}
use yeti.Base.Dict.{Dict, insert}
use yeti.Base.Lists.{All}
use yeti.Errors.Chain.{Err, wrap}

pub data Status : Type 0 where
  healthy degraded unhealthy : Status

pub record CheckResult : Type 0 where
  pub status : Status
  pub message : String

pub record Health : Type 0 where
  pub status : Status
  pub checks : Dict CheckResult

pub record Checker : Type 0 where
  pub name : String
  pub answer : Option Err

-- `Check` of the checkers for PostgreSQL, Redis and MongoDB, for the error of a ping.
abbrev ping_failed : String → Option Err → Option Err
ping_failed prefix none = none
ping_failed prefix (some e) = some (wrap prefix e)

unfoldable pub postgresql_checker : Option Err → Checker
postgresql_checker ping = record {
  name = "postgresql";
  answer = ping_failed "postgresql ping failed" ping;
}

unfoldable pub redis_checker : Option Err → Checker
redis_checker ping = record { name = "redis"; answer = ping_failed "redis ping failed" ping }

unfoldable pub mongodb_checker : Option Err → Checker
mongodb_checker ping = record { name = "mongodb"; answer = ping_failed "mongodb ping failed" ping }

-- `describe` is `err.Error()`.
module _ (describe : Err → String) where
  abbrev pub result_of : Option Err → CheckResult
  result_of none = record { status = healthy; message = "" }
  result_of (some e) = record { status = unhealthy; message = describe e }

  -- The loop: whether all are healthy so far, and the results.
  unfoldable pub check_each : List Checker → Bool → Dict CheckResult → Bool × Dict CheckResult
  check_each [] all_healthy results = (all_healthy, results)
  check_each (c ∷ checkers) all_healthy results =
      check_each checkers (all_healthy && not (is_some c.answer))
        (insert c.name (result_of c.answer) results)

  -- No check makes `anyDegraded` true.
  unfoldable pub check : List Checker → Health
  check checkers =
      let (all_healthy, results) = check_each checkers true [] in
      record { status = if all_healthy then healthy else unhealthy; checks = results }

  -- Each checker answers without an error.
  abbrev pub NoFailure : List Checker → Type 0
  NoFailure = All (λ c. c.answer ≡ none)

  check_each-NoFailure :
      (checkers : List Checker) (all_healthy : Bool) (results : Dict CheckResult)
      → ((check_each checkers all_healthy results).0 ≡ true)
        ↔ ((all_healthy ≡ true) × NoFailure checkers)
  unfolding check_each
  check_each-NoFailure [] all_healthy results = ground arith
  check_each-NoFailure (c ∷ checkers) all_healthy results = ground (
    arith,
    check_each-NoFailure checkers (all_healthy && not (is_some c.answer))
        (insert c.name (result_of c.answer) results),
  )

  -- A service is healthy exactly when each of its checkers answers without an error, and is never
  -- reported as degraded.
  pub check_healthy_iff :
      (checkers : List Checker)
      → let s = (check checkers).status in ((s ≡ healthy) ↔ NoFailure checkers) × (s ≢ degraded)
  unfolding check
  check_healthy_iff checkers = ground (arith, check_each-NoFailure checkers true [])
