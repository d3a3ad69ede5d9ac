-- ===== src/Errors/Result.antt =====
-- Go's pair of a value and an error, of which one is set, and what a request's context says.
use yeti.Base.{◌≡◌, refl, ◌⊎◌, inl, inr, Bool, true, false, ℕ, String, Option}
use yeti.Errors.Chain.{Err, wrap}
use yeti.Model.Value.{Value}

pub data Result {ℓ} (A : Type ℓ) : Type ℓ where
  ok : A → Result A
  err : Err → Result A

infixl 5 ◌>>=◌
abbrev pub ◌>>=◌ {ℓ κ} : {A : Type ℓ} {B : Type κ} → Result A → (A → Result B) → Result B
ok a >>= f = f a
err e >>= f = err e

-- `fmt.Errorf("prefix: %w", err)` on the error path.
abbrev pub wrap_err {ℓ} : {A : Type ℓ} → String → Result A → Result A
wrap_err p (ok a) = ok a
wrap_err p (err e) = err (wrap p e)

pub Result-cases {ℓ} :
    {A : Type ℓ} (r : Result A) → ((a : A) × (r ≡ ok a)) ⊎ ((e : Err) × (r ≡ err e))
Result-cases (ok a) = inl (a, refl)
Result-cases (err e) = inr (e, refl)

abbrev pub is_err {ℓ} : {A : Type ℓ} → Result A → Bool
is_err (ok a) = false
is_err (err e) = true

-- A `context.Context`: `err_at k` is what `ctx.Err()` returns at the k-th check of a call, and
-- `user_id` what `ctx.Value("user_id")` holds.
pub record Context : Type 0 where
  pub err_at : ℕ → Option Err
  pub user_id : Option Value
