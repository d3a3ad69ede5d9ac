-- ===== src/Retry/Outcomes.antt =====
-- What `RetryWithCallback` returns while the context lives and the time does not run out.
use yeti.Base.{
  ℕ, zero, suc, ◌+◌, ◌-◌, ◌<◌, ◌≡◌, ◌≢◌, refl, ◌∙◌, ap, true, Option, none, some, arith, is_some,
}
use yeti.Errors.Chain.{
  Err, AppErr, plain, wrap, retryable, fatal, skip_rule, app, app_of, fatal_in, as_app,
}
use yeti.Retry.{
  permanent, transient, Policy, BackOff, Documented, Persists, with_default_attempts,
  mark_retryable, classify, Run, start, operation, retry_with_callback,
}
use yeti.Retry.Attempts.{allowed}

module _ (S : Type 0) (fn : S → Option Err × S) where
  abbrev pub IsRetried : Option Err → Type 0
  IsRetried a = (e : Err) × (a ≡ some e) × (fatal_in e ≡ none)

  -- The first `k` calls from `s` on answer with errors that no FatalError is in.
  abbrev pub FailsFirst : ℕ → S → Type 0
  FailsFirst zero s = Unit
  FailsFirst (suc k) s = IsRetried (fn s).0 × FailsFirst k (fn s).1

  abbrev pub state_after : ℕ → S → S
  state_after zero s = s
  state_after (suc k) s = state_after k (fn s).1

  abbrev iterate : ℕ → ℕ → Run S → Run S
  iterate max zero r = r
  iterate max (suc k) r = iterate max k (operation S fn max r).1

  inner_iterate :
      (max k : ℕ) (r : Run S)
      → ((iterate max k r).inner ≡ state_after k r.inner)
        × ((iterate max k r).attempt ≡ k + r.attempt)
  unfolding operation
  inner_iterate max zero r = (refl, omega arith)
  inner_iterate max (suc k) r =
      let ih = inner_iterate max k (operation S fn max r).1 in (ih.0, omega (arith, ih.1))

  module _ (lib : BackOff) (doc : Documented lib) (live : Persists lib) where
    ahead :
        (p : Policy) (max k n m : ℕ) (r : Run S)
        → n ≡ k + m
        → FailsFirst k r.inner
        → lib.retry (Run S) p n (operation S fn max) r
          ≡ lib.retry (Run S) p m (operation S fn max) (iterate max k r)
    unfolding operation
    ahead p max zero n m r e f = let e' : n ≡ m = omega arith in rw e'
    ahead p max (suc k) zero m r e f = absurd (omega arith)
    ahead p max (suc k) (suc n) m r e ((x, at, retried), later) =
        live.again (Run S) p n (operation S fn max) r (operation S fn max r).1 (mark_retryable x)
          (ground arith)
        ∙ ahead p max k n m (operation S fn max r).1 (omega arith) later

    reached :
        (p : Policy) (k : ℕ) (s : S)
        → k < allowed p
        → FailsFirst k s
        → retry_with_callback S fn lib p s
          ≡ lib.retry
              (Run S)
              (with_default_attempts p)
              (allowed p - 1 - k)
              (operation S fn (allowed p))
              (iterate (allowed p) k (start S s))
    unfolding retry_with_callback
    reached p k s lt f =
        ahead (with_default_attempts p) (allowed p) k (allowed p - 1) (allowed p - 1 - k)
          (start S s) (omega arith) f

    -- The call after `k` calls.
    call_at :
        (max k : ℕ) (s : S) {a : Option Err}
        → (fn (state_after k s)).0 ≡ a
        → let r = iterate max k (start S s) in
          (operation S fn max r ≡ (classify a, (operation S fn max r).1))
          × ((operation S fn max r).1.attempt ≡ k + 1)
    unfolding operation
    call_at max k s h =
        let (same, count) = inner_iterate max k (start S s) in
        (ground (arith, ap (λ x. fn x) same), omega (arith, count))

    -- If the first `k` calls answer with errors that no FatalError is in, the policy allows one more,
    -- and that one answers nil, then nil is returned after `k + 1` calls.
    pub retry_with_callback_success :
        (p : Policy) (k : ℕ) (s : S)
        → k < allowed p
        → FailsFirst k s
        → (fn (state_after k s)).0 ≡ none
        → ((retry_with_callback S fn lib p s).0 ≡ none)
          × ((retry_with_callback S fn lib p s).1.attempt ≡ k + 1)
    unfolding classify
    retry_with_callback_success p k s lt f nil =
        let r = iterate (allowed p) k (start S s) in
        let op = operation S fn (allowed p) in
        let (at, count) = call_at (allowed p) k s nil in
        let done =
          reached p k s lt f
          ∙ doc.at_success (Run S) (with_default_attempts p) (allowed p - 1 - k) op r (op r).1 at in
        (ap (λ x. x.0) done, ap (λ x. x.1.attempt) done ∙ count)

    -- If the first `k` calls answer with errors that no FatalError is in, the policy allows one more,
    -- and that one answers with an error that has a FatalError in its chain, then that error is
    -- returned as it is, after `k + 1` calls.
    pub retry_with_callback_fatal :
        (p : Policy) (k : ℕ) (s : S) (e : Err)
        → k < allowed p
        → FailsFirst k s
        → (fn (state_after k s)).0 ≡ some e
        → fatal_in e ≢ none
        → ((retry_with_callback S fn lib p s).0 ≡ some e)
          × ((retry_with_callback S fn lib p s).1.attempt ≡ k + 1)
    unfolding classify
    retry_with_callback_fatal p k s e lt f h final =
        let r = iterate (allowed p) k (start S s) in
        let op = operation S fn (allowed p) in
        let (at, count) = call_at (allowed p) k s h in
        let at' : op r ≡ (permanent e, (op r).1) = at ∙ ground arith in
        let done =
          reached p k s lt f
          ∙ doc.at_permanent (Run S) (with_default_attempts p) (allowed p - 1 - k) op r (op r).1 e
              at' in
        (ap (λ x. x.0) done, ap (λ x. x.1.attempt) done ∙ count)

    -- If all the calls that the policy allows answer with errors that no FatalError is in, the last of
    -- these errors is returned, marked retryable, after as many calls as the policy allows.
    pub retry_with_callback_exhausted :
        (p : Policy) (k : ℕ) (s : S) (e : Err)
        → k + 1 ≡ allowed p
        → FailsFirst k s
        → (fn (state_after k s)).0 ≡ some e
        → fatal_in e ≡ none
        → ((retry_with_callback S fn lib p s).0 ≡ some (mark_retryable e))
          × ((retry_with_callback S fn lib p s).1.attempt ≡ allowed p)
    unfolding classify
    retry_with_callback_exhausted p k s e last f h other =
        let r = iterate (allowed p) k (start S s) in
        let op = operation S fn (allowed p) in
        let q = with_default_attempts p in
        let (at, count) = call_at (allowed p) k s h in
        let at' : op r ≡ (transient (mark_retryable e), (op r).1) = at ∙ ground arith in
        let z : allowed p - 1 - k ≡ 0 = omega arith in
        let lt : k < allowed p = omega arith in
        let done =
          reached p k s lt f
          ∙ ap (λ m. lib.retry (Run S) q m op r) z
          ∙ live.last (Run S) q op r (op r).1 (mark_retryable e) at' in
        (ap (λ x. x.0) done, ap (λ x. x.1.attempt) done ∙ count ∙ last)

-- An application error in the chain is a FatalError there.
fatal_in_app : (e : Err) (a : AppErr) → as_app e ≡ some a → is_some (fatal_in e) ≡ true
unfolding as_app fatal_in
fatal_in_app (plain m) a h = cc
fatal_in_app (wrap p e) a h = fatal_in_app e a h
fatal_in_app (retryable e) a h = fatal_in_app e a h
fatal_in_app (fatal e) a h = refl
fatal_in_app (skip_rule r m) a h = cc
fatal_in_app (app x) a h = refl
fatal_in_app (app_of x e) a h = refl

-- An application error is never tried again, not even one that AsRetryable marked: `errors.As` finds
-- every `*Error` to be a FatalError, and its IsFatal is not asked. So if the first call answers with
-- an error that has an `*Error` anywhere in its chain, that error is returned after one call.
pub retry_with_callback_app :
    (S : Type 0) (fn : S → Option Err × S) (lib : BackOff)
    → Documented lib
    → (p : Policy) (s : S) {e : Err} {a : AppErr} → (fn s).0 ≡ some e
    → as_app e ≡ some a
    → (retry_with_callback S fn lib p s).0 ≡ some e
      × ((retry_with_callback S fn lib p s).1.attempt ≡ 1)
unfolding retry_with_callback operation classify
retry_with_callback_app S fn lib doc p s {e} {a} h at =
    let op = operation S fn (allowed p) in
    let first : op (start S s) ≡ (permanent e, (op (start S s)).1) =
      ground (arith, fatal_in_app e a at) in
    let done =
      doc.at_permanent (Run S) (with_default_attempts p) (allowed p - 1) op (start S s)
        (op (start S s)).1 e first in
    (ap (λ x. x.0) done, ap (λ x. x.1.attempt) done)
