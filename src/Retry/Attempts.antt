-- ===== src/Retry/Attempts.antt =====
-- How often an operation is called, and with which result.
use yeti.Base.{
  ℕ, zero, suc, ◌+◌, ◌-◌, ◌≤◌, ◌<◌, ◌≡◌, refl, Option, [], ◌∷◌, arith, if◌then◌else◌, inl, inr,
  value_or,
}
use yeti.Base.Int.{pos, pos_part, lez}
use yeti.Base.Lists.{length, length-append}
use yeti.Errors.Chain.{Err, plain}
use yeti.Retry.{
  Attempt, success, permanent, transient, Policy, BackOff, Documented, with_default_attempts,
  mark_retryable, Run, start, operation, retry_with_callback,
}

-- The number of attempts that a policy allows: 3 if it gives none.
abbrev pub allowed : Policy → ℕ
allowed p = pos_part (with_default_attempts p).max_attempts

pub allowed_lem :
    (p : Policy) → allowed p ≡ (if lez p.max_attempts (pos 0) then 3 else pos_part p.max_attempts)
unfolding with_default_attempts
allowed_lem p = ground arith

pub allowed_pos : (p : Policy) → 0 < allowed p
unfolding with_default_attempts
allowed_pos p = ground arith

module _ (S : Type 0) (fn : S → Option Err × S) where
  -- Each call counts, and is followed by a notice only if another call may come.
  step_notices :
      (max : ℕ) (r : Run S)
      → length r.notices ≤ r.attempt
      → length r.notices < max
      → let r' = (operation S fn max r).1 in
        (r'.attempt ≡ suc r.attempt)
        × (length r'.notices ≤ suc r.attempt)
        × (length r'.notices < max)
  unfolding operation
  step_notices max r h l = ground (
    arith,
    length-append r.notices
        ((suc r.attempt, mark_retryable (value_or (fn r.inner).0 nothing)) ∷ []),
  )
    where
      nothing : Err
      nothing = plain ""

  module _ (lib : BackOff) (doc : Documented lib) where
    abbrev Within : ℕ → Run S → Run S → Type 0
    Within max r z = (r.attempt < z.attempt) × (z.attempt ≤ max) × (length z.notices < max)

    within :
        (p : Policy) (n max : ℕ) (r r' : Run S) (a : Attempt)
        → operation S fn max r ≡ (a, r')
        → (r'.attempt ≡ suc r.attempt)
          × (length r'.notices ≤ suc r.attempt)
          × (length r'.notices < max)
        → r.attempt + suc n ≡ max
        → Within max r (lib.retry (Run S) p n (operation S fn max) r).1
    within p n max r r' success at inv e = rw (doc.at_success (Run S) p n _ r r' at) (omega arith)
    within p n max r r' (permanent x) at inv e =
        rw (doc.at_permanent (Run S) p n _ r r' x at) (omega arith)
    within p zero max r r' (transient x) at inv e =
        let (x', stop) = doc.at_last (Run S) p (operation S fn max) r r' x at in
        rw stop (omega arith)
    within p (suc n) max r r' (transient x) at inv e =
        elim (doc.at_other (Run S) p n (operation S fn max) r r' x at) [
          | inl again ↦
              let next = operation S fn max r' in
              let ih =
                within p n max r' next.1 next.0 refl
                  (step_notices max r' (omega arith) (omega arith)) (omega arith) in
              rw again (omega (arith, ih))
          | inr (x', stop) ↦ rw stop (omega arith)
        ]

    -- Whatever the operation answers, and also if the context ends or the time runs out, it is called
    -- at least once and at most as often as the policy allows, 3 times if that is not positive; and
    -- `onRetry` is called less often than the policy allows calls.
    pub retry_with_callback_bounds :
        (p : Policy) (s : S)
        → let r = (retry_with_callback S fn lib p s).1 in
          (1 ≤ r.attempt) × (r.attempt ≤ allowed p) × (length r.notices < allowed p)
    unfolding retry_with_callback
    retry_with_callback_bounds p s =
        let op = operation S fn (allowed p) (start S s) in
        let most = allowed_pos p in
        let first = step_notices (allowed p) (start S s) (omega arith) most in
        within (with_default_attempts p) (allowed p - 1) (allowed p) (start S s) op.1 op.0 refl
          first (omega arith)
