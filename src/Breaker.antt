-- ===== src/Breaker.antt =====
-- pkg/circuitbreaker/wrapper.go, and the settings that internal/enrichment/provider/wrapper.go and
-- internal/deduplication/circuit_breaker_repository.go make of the configuration. Package gobreaker
-- and Go's `float64` are parameters; the metrics are in Breaker.Wrapper.
pub mod Wrapper
use yeti.Base.{
  ℕ, suc, ◌≤◌, ◌<◌, String, ◌<>◌, ◌≡◌, refl, ◌⊎◌, inl, inr, Bool, true, false, not, ◌&&◌, Option,
  none, some, arith, ltb, leb, if◌then◌else◌, Option-cases,
}
use yeti.Base.Int.{ℤ, pos, ltz, ◌<ℤ◌}
use yeti.Errors.Chain.{Err, wrap}
use yeti.Errors.Result.{Result, ok, err, Context, Result-cases}

pub record Floats : Type 1 where
  pub Float : Type 0
  pub divide : ℕ → ℕ → Float
  pub ge : Float → Float → Bool
  pub is_positive : Float → Bool
  pub half : Float

-- `CircuitBreakerConfig` of internal/config/config.go; a `time.Duration` is in nanoseconds.
pub record CircuitBreakerConfig (floats : Floats) : Type 0 where
  pub enabled : Bool
  pub max_requests : ℕ
  pub interval : ℤ
  pub timeout : ℤ
  pub failure_ratio : Floats.Float floats
  pub min_requests : ℕ

-- What of `gobreaker.Counts` the code reads.
pub record Counts : Type 0 where
  pub requests : ℕ
  pub total_failures : ℕ

pub record Config : Type 0 where
  pub name : String
  pub max_requests : ℕ
  pub interval : ℤ
  pub timeout : ℤ
  pub ready_to_trip : Counts → Bool

module _ (floats : Floats) where
  abbrev pub failure_ratio : Counts → floats.Float
  failure_ratio counts = floats.divide counts.total_failures counts.requests

  unfoldable pub default_config : String → Config
  default_config name = record {
    name = name;
    max_requests = 3;
    interval = pos 60000000000;
    timeout = pos 60000000000;
    ready_to_trip = λ counts. leb 3 counts.requests && floats.ge (failure_ratio counts) floats.half;
  }

  abbrev configured_trip : CircuitBreakerConfig floats → (Counts → Bool) → Counts → Bool
  configured_trip cfg default counts =
      if floats.is_positive cfg.failure_ratio && ltb 0 cfg.min_requests
      then not (ltb counts.requests cfg.min_requests)
        && floats.ge (failure_ratio counts) cfg.failure_ratio
      else default counts

  -- The settings of a breaker that is enabled.
  unfoldable pub breaker_config : String → CircuitBreakerConfig floats → Config
  breaker_config name cfg =
      let d = default_config name in
      record {
        name = name;
        max_requests = if ltb 0 cfg.max_requests then cfg.max_requests else d.max_requests;
        interval = if ltz (pos 0) cfg.interval then cfg.interval else d.interval;
        timeout = if ltz (pos 0) cfg.timeout then cfg.timeout else d.timeout;
        ready_to_trip = configured_trip cfg d.ready_to_trip;
      }

  -- Whatever is configured, a breaker lets at least one request through when it is half open, and its
  -- two times are positive.
  pub breaker_config_positive :
      (name : String) (cfg : CircuitBreakerConfig floats)
      → let c = breaker_config name cfg in
        (0 < c.max_requests) × (pos 0 <ℤ c.interval) × (pos 0 <ℤ c.timeout)
  unfolding breaker_config default_config
  breaker_config_positive name cfg = ground arith

  -- A breaker does not open on fewer requests than the configured minimum, or than three where the
  -- minimum or the ratio is not set.
  pub breaker_config_trips :
      (name : String) (cfg : CircuitBreakerConfig floats) (counts : Counts)
      → (breaker_config name cfg).ready_to_trip counts ≡ true
      → (if floats.is_positive cfg.failure_ratio && ltb 0 cfg.min_requests
          then cfg.min_requests
          else 3)
        ≤ counts.requests
  unfolding breaker_config default_config
  breaker_config_trips name cfg counts h = ground arith

pub data Phase : Type 0 where
  closed half_open open_phase : Phase

-- `gobreaker.CircuitBreaker`: `execute f w b` is `Execute` of a call `f` that works on a world `w`.
pub record Gobreaker : Type 1 where
  pub State : Type 0
  pub start : Config → State
  pub phase : State → Phase
  pub execute : {A W : Type 0} → (W → Result A × W) → W → State → (Result A × W) × State

-- What the package documents: a request that the breaker accepts is run once and its answer given
-- back, one that it rejects is not run and gives an error, and an open breaker rejects them all.
pub record Behaves (cb : Gobreaker) : Type 1 where
  pub runs_or_rejects :
      {A W : Type 0} (f : W → Result A × W) (w : W) (b : cb.State)
      → ((cb.execute f w b).0 ≡ f w) ⊎ ((e : Err) × ((cb.execute f w b).0 ≡ (err e, w)))
  pub open_rejects :
      {A W : Type 0} (f : W → Result A × W) (w : W) (b : cb.State)
      → cb.phase b ≡ open_phase
      → (e : Err) × ((cb.execute f w b).0 ≡ (err e, w))

module _ (cb : Gobreaker) where
  abbrev pub unless_done : {A W : Type 0} → Option Err → (W → Result A × W) → W → Result A × W
  unless_done none f w = f w
  unless_done (some e) f w = (err e, w)

  -- `k` checks of the context have been made before.
  unfoldable pub execute_with_context :
      {A W : Type 0} → Context → ℕ → (W → Result A × W) → W → cb.State → (Result A × W) × cb.State
  execute_with_context ctx k f w b = elim (ctx.err_at k) [
    | some e ↦ ((err e, w), b)
    | none ↦ cb.execute (unless_done (ctx.err_at (suc k)) f) w b
  ]

  unfoldable pub is_open : cb.State → Bool
  is_open b = elim (cb.phase b) [ open_phase ↦ true | _ ↦ false ]

  abbrev pub failure : String → cb.State → Err → Err
  failure name b e = if is_open b then wrap ("circuit breaker is open for " <> name) e else e

  abbrev pub named : {A : Type 0} → String → cb.State → Result A → Result A
  named name b (ok a) = ok a
  named name b (err e) = err (failure name b e)

  -- `ExecuteWithContext`, with the name of the breaker before an error while it is open. The type
  -- assertions behind it always hold: the call gives what it is asked for, or an error.
  unfoldable pub guarded :
      {A W : Type 0}
      → String
      → Context
      → ℕ
      → (W → Result A × W)
      → W
      → cb.State
      → (Result A × W) × cb.State
  guarded name ctx k f w b =
      let ((answer, w'), b') = execute_with_context ctx k f w b in ((named name b' answer, w'), b')

  module _ (behaves : Behaves cb) where
    -- What a call under a breaker answers is what the call answers, on the world that the call leaves,
    -- or an error on the world as it was.
    abbrev Follows : {A W : Type 0} → Result A × W → (W → Result A × W) → W → Type 0
    Follows answer f w = (answer ≡ f w) ⊎ ((e : Err) × (answer ≡ (err e, w)))

    Follows-unless_done :
        {A W : Type 0} (o : Option Err) (f : W → Result A × W) (w : W)
        → Follows (unless_done o f w) f w
    Follows-unless_done none f w = inl refl
    Follows-unless_done (some e) f w = inr (e, refl)

    Follows-execute_with_context :
        {A W : Type 0} (ctx : Context) (k : ℕ) (f : W → Result A × W) (w : W) (b : cb.State)
        → Follows (execute_with_context ctx k f w b).0 f w
    unfolding execute_with_context
    Follows-execute_with_context ctx k f w b = elim (Option-cases (ctx.err_at k)) [
      | inr (e, done) ↦ inr (e, ground arith)
      | inl live ↦ elim (behaves.runs_or_rejects (unless_done (ctx.err_at (suc k)) f) w b) [
        | inr (e, rejected) ↦ inr (e, ground arith)
        | inl run ↦ elim (Follows-unless_done (ctx.err_at (suc k)) f w) [
          | inr (e, done) ↦ inr (e, ground arith)
          | inl called ↦ inl (ground arith)
        ]
      ]
    ]

    -- A call under a breaker succeeds only as the call itself does, with its value and on the world
    -- that it leaves; else it answers an error, and the world is left as it was, or as the call left it
    -- when it failed.
    pub guarded_refines :
        {A W : Type 0} (name : String) (ctx : Context) (k : ℕ) (f : W → Result A × W) (w : W)
        (b : cb.State)
        → let answer = (guarded name ctx k f w b).0 in
          ((a : A) × (f w ≡ (ok a, answer.1)) × (answer.0 ≡ ok a))
          ⊎ ((e : Err) × (answer.0 ≡ err e)
              × ((answer.1 ≡ w) ⊎ ((x : Err) × (f w ≡ (err x, answer.1)))))
    unfolding guarded
    guarded_refines name ctx k f w b =
        let (answer, b') = execute_with_context ctx k f w b in
        elim (Follows-execute_with_context ctx k f w b) [
          | inr (e, rejected) ↦ inr (failure name b' e, ground arith, inl (ground arith))
          | inl run ↦ elim (Result-cases (f w).0) [
            | inl (a, fine) ↦ inl (a, ground arith, ground arith)
            | inr (x, failed) ↦ inr (failure name b' x, ground arith, inr (x, ground arith))
          ]
        ]

    -- While the breaker is open, a call is not run: it answers an error, and the world is left.
    pub guarded_open :
        {A W : Type 0} (name : String) (ctx : Context) (k : ℕ) (f : W → Result A × W) (w : W)
        (b : cb.State)
        → cb.phase b ≡ open_phase
        → (e : Err) × ((guarded name ctx k f w b).0 ≡ (err e, w))
    unfolding guarded execute_with_context
    guarded_open name ctx k f w b h =
        let (answer, b') = execute_with_context ctx k f w b in
        elim (Option-cases (ctx.err_at k)) [
          | inr (e, done) ↦ (failure name b' e, ground arith)
          | inl live ↦
              let (e, rejected) = behaves.open_rejects (unless_done (ctx.err_at (suc k)) f) w b h in
              (failure name b' e, ground arith)
        ]
