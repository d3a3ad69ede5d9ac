-- ===== src/Retry.antt =====
-- pkg/retry/retry.go: an operation that is tried again. The loop itself is
-- `github.com/cenkalti/backoff`, the parameter `BackOff`.
pub mod Backoff
pub mod Attempts
pub mod Outcomes
use yeti.Base.{
  ℕ, suc, ◌+◌, ◌-◌, String, ◌≡◌, Bool, true, false, Option, none, some, List, [], ◌∷◌, ◌++◌, ltb,
  if◌then◌else◌, ◌⊎◌, is_some,
}
use yeti.Base.Int.{ℤ, pos, pos_part, lez}
use yeti.Errors.Chain.{Err, retryable, fatal_in, retryable_in}

-- What an operation tells the library: nil, `backoff.Permanent(err)`, or another error.
pub data Attempt : Type 0 where
  success : Attempt
  permanent : Err → Attempt
  transient : Err → Attempt

-- Durations are in nanoseconds. The multiplier is a float64, by its bit pattern: only the library
-- computes with it.
pub record Policy : Type 0 where
  pub max_attempts : ℤ
  pub initial_interval : ℤ
  pub max_interval : ℤ
  pub multiplier : ℕ
  pub max_elapsed_time : ℤ

-- `backoff.Retry(op, b)` for the backoff of a policy with `WithMaxRetries(b, n)`; the operation
-- changes a state.
pub record BackOff : Type 1 where
  pub retry : (S : Type 0) → Policy → ℕ → (S → Attempt × S) → S → Option Err × S

-- What the library documents: it stops at nil and at a permanent error, which it unwraps; after any
-- other error it calls again, or returns with that error, or with another if the context or the time
-- ends; and behind the last retry it returns.
pub record Documented (lib : BackOff) : Type 1 where
  pub at_success :
      (S : Type 0) (p : Policy) (n : ℕ) (op : S → Attempt × S) (s s' : S)
      → op s ≡ (success, s')
      → lib.retry S p n op s ≡ (none, s')
  pub at_permanent :
      (S : Type 0) (p : Policy) (n : ℕ) (op : S → Attempt × S) (s s' : S) (e : Err)
      → op s ≡ (permanent e, s')
      → lib.retry S p n op s ≡ (some e, s')
  pub at_last :
      (S : Type 0) (p : Policy) (op : S → Attempt × S) (s s' : S) (e : Err)
      → op s ≡ (transient e, s')
      → (e' : Err) × (lib.retry S p 0 op s ≡ (some e', s'))
  pub at_other :
      (S : Type 0) (p : Policy) (n : ℕ) (op : S → Attempt × S) (s s' : S) (e : Err)
      → op s ≡ (transient e, s')
      → (lib.retry S p (suc n) op s ≡ lib.retry S p n op s')
        ⊎ ((e' : Err) × (lib.retry S p (suc n) op s ≡ (some e', s')))

-- The same while the context lives and the time does not run out: it calls again, and returns the error
-- of the last call.
pub record Persists (lib : BackOff) : Type 1 where
  pub again :
      (S : Type 0) (p : Policy) (n : ℕ) (op : S → Attempt × S) (s s' : S) (e : Err)
      → op s ≡ (transient e, s')
      → lib.retry S p (suc n) op s ≡ lib.retry S p n op s'
  pub last :
      (S : Type 0) (p : Policy) (op : S → Attempt × S) (s s' : S) (e : Err)
      → op s ≡ (transient e, s')
      → lib.retry S p 0 op s ≡ (some e, s')

unfoldable pub with_default_attempts : Policy → Policy
with_default_attempts p =
    if lez p.max_attempts (pos 0) then record p { max_attempts = pos 3 } else p

-- The error of an attempt, marked retryable unless its chain says so already.
unfoldable pub mark_retryable : Err → Err
mark_retryable e = if is_some (retryable_in e) then e else retryable e

-- What the operation returns for the error of `fn`.
unfoldable pub classify : Option Err → Attempt
unfolding mark_retryable
classify none = success
classify (some e) = if is_some (fatal_in e) then permanent e else transient (mark_retryable e)

-- The variables that the operation closes over: the state that `fn` works on, the number of calls,
-- and the calls of `onRetry`.
pub record Run (S : Type 0) : Type 0 where
  pub inner : S
  pub attempt : ℕ
  pub notices : List (ℕ × Err)

abbrev notify : ℕ → ℕ → Attempt → List (ℕ × Err) → List (ℕ × Err)
notify attempt max_attempts (transient e) l =
    if ltb attempt max_attempts then l ++ ((attempt, e) ∷ []) else l
notify attempt max_attempts a l = l

abbrev pub start : (S : Type 0) → S → Run S
start S s = record { inner = s; attempt = 0; notices = [] }

module _ (S : Type 0) (fn : S → Option Err × S) where
  -- The operation of `RetryWithCallback`.
  unfoldable pub operation : ℕ → Run S → Attempt × Run S
  unfolding classify
  operation max_attempts r =
      let (answer, s) = fn r.inner in
      (
        classify answer,
        record {
          inner = s;
          attempt = suc r.attempt;
          notices = notify (suc r.attempt) max_attempts (classify answer) r.notices;
        },
      )

  unfoldable pub retry_with_callback : BackOff → Policy → S → Option Err × Run S
  unfolding with_default_attempts
  retry_with_callback lib policy s =
      let p = with_default_attempts policy in
      let n = pos_part p.max_attempts in lib.retry (Run S) p (n - 1) (operation n) (start S s)

  -- The operation of `Retry`, which has no callback.
  unfoldable pub plain_operation : Run S → Attempt × Run S
  unfolding classify
  plain_operation r =
      let (answer, s) = fn r.inner in
      (classify answer, record r { inner = s; attempt = suc r.attempt })

  unfoldable pub retry : BackOff → Policy → S → Option Err × Run S
  unfolding with_default_attempts
  retry lib policy s =
      let p = with_default_attempts policy in
      lib.retry (Run S) p (pos_part p.max_attempts - 1) plain_operation (start S s)
