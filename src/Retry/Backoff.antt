-- ===== src/Retry/Backoff.antt =====
-- pkg/retry/backoff.go: `CalculateBackoffDuration`; Go's float64 is a parameter. Nothing of the program
-- calls the file.
use yeti.Base.{◌≡◌, Bool, false, arith, if◌then◌else◌, Bool-cases, inl, inr}
use yeti.Base.Int.{ℤ, ◌≤ℤ◌}

-- `of_int` is the conversion of an `int` or a `time.Duration`, and `truncate` the one back.
pub record Floats : Type 1 where
  pub Float : Type 0
  pub of_int : ℤ → Float
  pub times : Float → Float → Float
  pub pow : Float → Float → Float
  pub greater : Float → Float → Bool
  pub truncate : Float → ℤ

module _ (floats : Floats) where
  unfoldable pub calculate_backoff_duration : ℤ → ℤ → floats.Float → ℤ → ℤ
  calculate_backoff_duration attempt initial_interval multiplier max_interval =
      let duration =
        floats.times (floats.of_int initial_interval)
          (floats.pow multiplier (floats.of_int attempt)) in
      if floats.greater duration (floats.of_int max_interval)
      then max_interval
      else floats.truncate duration

  -- The duration is no longer than the longest interval, where a float that is not greater than an
  -- integer's is truncated to at most that integer.
  pub calculate_backoff_duration_bound :
      (attempt initial_interval max_interval : ℤ) (multiplier : floats.Float)
      → ((x : floats.Float) (n : ℤ)
          → floats.greater x (floats.of_int n) ≡ false
          → floats.truncate x ≤ℤ n)
      → calculate_backoff_duration attempt initial_interval multiplier max_interval ≤ℤ max_interval
  unfolding calculate_backoff_duration
  calculate_backoff_duration_bound attempt initial_interval max_interval multiplier law =
      let duration =
        floats.times (floats.of_int initial_interval)
          (floats.pow multiplier (floats.of_int attempt)) in
      elim (Bool-cases (floats.greater duration (floats.of_int max_interval))) [
        | inl above ↦ ground arith
        | inr below ↦ ground (arith, law duration max_interval)
      ]
