-- ===== src/Providers/Guarded.antt =====
-- internal/enrichment/provider/circuit_breaker_provider.go and wrapper.go, and the providers that
-- `NewService…` of internal/enrichment/service.go registers.
use yeti.Base.{
  ap, String, ◌≡◌, ◌≢◌, refl, true, Option, none, some, arith, ◌==◌, eq_iff, if◌then◌else◌, inl,
  inr, text-cases,
}
use yeti.Model.Value.{Value, Fields}
use yeti.Errors.Chain.{Err}
use yeti.Errors.Result.{Result, err, Context}
use yeti.Breaker.{Floats, CircuitBreakerConfig, Gobreaker, Behaves, Phase, guarded, guarded_open}
use yeti.Providers.Query.{SourceConfig}

-- A provider, on a world.
abbrev pub DataProvider : Type 0 → Type 0
DataProvider W = SourceConfig → Value → W → Result Fields × W

-- The clients that the service is given; the one for HTTP is its own. `none` is a nil client.
pub record Clients (W : Type 0) : Type 0 where
  pub api : DataProvider W
  pub cache : Option (DataProvider W)
  pub mongo : Option (DataProvider W)
  pub postgres : Option (DataProvider W)

module _ (floats : Floats) (cb : Gobreaker) (W : Type 0) where
  -- The world, and the breakers by their names.
  abbrev pub Guarded : Type 0
  Guarded = W × (String → cb.State)

  unfoldable pub set_breaker : String → cb.State → (String → cb.State) → String → cb.State
  set_breaker name b breakers n = if name == n then b else breakers n

  -- A provider without a breaker leaves them all.
  abbrev pub plain_fetch : DataProvider W → DataProvider Guarded
  plain_fetch provider config v (w, breakers) =
      let (answer, w') = provider config v w in (answer, (w', breakers))

  -- `Fetch` of `CircuitBreakerProvider`.
  unfoldable pub breaker_fetch : String → Context → DataProvider W → DataProvider Guarded
  breaker_fetch name ctx provider config v (w, breakers) =
      let ((answer, w'), b) = guarded cb name ctx 0 (provider config v) w (breakers name) in
      (answer, (w', set_breaker name b breakers))

  unfoldable pub wrap_with_circuit_breaker :
      CircuitBreakerConfig floats → String → Context → DataProvider W → DataProvider Guarded
  wrap_with_circuit_breaker cfg name ctx provider =
      if cfg.enabled then breaker_fetch name ctx provider else plain_fetch provider

  -- Without a configuration nothing is wrapped.
  abbrev pub wrapped :
      Option (CircuitBreakerConfig floats)
      → String
      → Context
      → DataProvider W
      → DataProvider Guarded
  wrapped none name ctx provider = plain_fetch provider
  wrapped (some cfg) name ctx provider = wrap_with_circuit_breaker cfg name ctx provider

  abbrev pub wrapped_client :
      Option (CircuitBreakerConfig floats)
      → String
      → Context
      → Option (DataProvider W)
      → Option (DataProvider Guarded)
  wrapped_client cfg name ctx none = none
  wrapped_client cfg name ctx (some provider) = some (wrapped cfg name ctx provider)

  -- The map `providers`. A source that is stored as "redis" shares the breaker of "cache".
  unfoldable pub new_providers :
      Option (CircuitBreakerConfig floats)
      → Context
      → Clients W
      → String
      → Option (DataProvider Guarded)
  new_providers cfg ctx clients name =
      if name == "api"
      then some (wrapped cfg "api" ctx clients.api)
      else if name == "cache"
      then wrapped_client cfg "cache" ctx clients.cache
      else if name == "redis"
      then wrapped_client cfg "cache" ctx clients.cache
      else if name == "mongodb"
      then wrapped_client cfg "mongodb" ctx clients.mongo
      else if name == "postgresql"
      then wrapped_client cfg "postgresql" ctx clients.postgres
      else none

  -- The breaker that stands before the provider of a name.
  abbrev pub breaker_of : String → String
  breaker_of name = if name == "redis" then "cache" else name

  wrapped_client-some :
      (cfg : Option (CircuitBreakerConfig floats)) (name : String) (ctx : Context)
      (client : Option (DataProvider W)) (fetch : DataProvider Guarded)
      → wrapped_client cfg name ctx client ≡ some fetch
      → (p : DataProvider W) × (fetch ≡ wrapped cfg name ctx p)
  wrapped_client-some cfg name ctx none fetch h = absurd (ground arith)
  wrapped_client-some cfg name ctx (some p) fetch h = (p, ground arith)

  registered :
      (cfg : Option (CircuitBreakerConfig floats)) (ctx : Context) (name breaker : String)
      (client : Option (DataProvider W)) (fetch : DataProvider Guarded)
      → breaker_of name ≡ breaker
      → wrapped_client cfg breaker ctx client ≡ some fetch
      → (p : DataProvider W) × (fetch ≡ wrapped cfg (breaker_of name) ctx p)
  registered cfg ctx name breaker client fetch same h =
      let (p, q) = wrapped_client-some cfg breaker ctx client fetch h in (p, rw same q)

  -- What is registered under a name is a provider with the breaker of that name.
  new_providers-wrapped :
      (cfg : Option (CircuitBreakerConfig floats)) (ctx : Context) (clients : Clients W)
      (name : String) (fetch : DataProvider Guarded)
      → new_providers cfg ctx clients name ≡ some fetch
      → (p : DataProvider W) × (fetch ≡ wrapped cfg (breaker_of name) ctx p)
  unfolding new_providers
  new_providers-wrapped cfg ctx clients name fetch h = elim (text-cases name "api") [
    | inl (e, p) ↦
        registered cfg ctx name "api" (some clients.api) fetch (ap breaker_of p) (ground arith)
    | inr (e, p) ↦ elim (text-cases name "cache") [
      | inl (e₁, q) ↦
          registered cfg ctx name "cache" clients.cache fetch (ap breaker_of q) (ground arith)
      | inr (e₁, q) ↦ elim (text-cases name "redis") [
        | inl (e₂, r) ↦
            registered cfg ctx name "cache" clients.cache fetch (ap breaker_of r) (ground arith)
        | inr (e₂, r) ↦ elim (text-cases name "mongodb") [
          | inl (e₃, t) ↦
              registered cfg ctx name "mongodb" clients.mongo fetch (ap breaker_of t) (ground arith)
          | inr (e₃, t) ↦ elim (text-cases name "postgresql") [
            | inl (e₄, u) ↦
                registered cfg ctx name "postgresql" clients.postgres fetch (ap breaker_of u)
                  (ground arith)
            | inr (e₄, u) ↦ absurd (ground arith)
          ]
        ]
      ]
    ]
  ]

  wrapped-apart :
      (cfg : Option (CircuitBreakerConfig floats)) (ctx : Context) (p : DataProvider W)
      (name other : String) (config : SourceConfig) (v : Value) (w : W)
      (breakers : String → cb.State)
      → other ≢ name
      → (wrapped cfg name ctx p config v (w, breakers)).1.1 other ≡ breakers other
  unfolding wrap_with_circuit_breaker breaker_fetch set_breaker
  wrapped-apart none ctx p name other config v w breakers apart = refl
  wrapped-apart (some cfg) ctx p name other config v w breakers apart =
      ground (arith, eq_iff name other)

  -- A fetch from a provider leaves the breakers of the others: a source that fails closes off no other.
  pub new_providers_isolated :
      (cfg : Option (CircuitBreakerConfig floats)) (ctx : Context) (clients : Clients W)
      (name other : String) (fetch : DataProvider Guarded) (config : SourceConfig) (v : Value)
      (w : W) (breakers : String → cb.State)
      → new_providers cfg ctx clients name ≡ some fetch
      → other ≢ breaker_of name
      → (fetch config v (w, breakers)).1.1 other ≡ breakers other
  unfolding new_providers wrap_with_circuit_breaker breaker_fetch set_breaker
  new_providers_isolated cfg ctx clients name other fetch config v w breakers h apart =
      let (p, same) = new_providers-wrapped cfg ctx clients name fetch h in
      rw same (wrapped-apart cfg ctx p (breaker_of name) other config v w breakers apart)

  module _ (behaves : Behaves cb) where
    -- While the breaker of a provider is open, and breakers are enabled, the provider is not asked: the
    -- fetch gives an error, and the world of the clients is left.
    pub new_providers_open :
        (cfg : CircuitBreakerConfig floats) (ctx : Context) (clients : Clients W) (name : String)
        (fetch : DataProvider Guarded) (config : SourceConfig) (v : Value) (w : W)
        (breakers : String → cb.State)
        → new_providers (some cfg) ctx clients name ≡ some fetch
        → cfg.enabled ≡ true
        → cb.phase (breakers (breaker_of name)) ≡ Phase.open_phase
        → (e : Err) × ((fetch config v (w, breakers)).0 ≡ err e)
          × ((fetch config v (w, breakers)).1.0 ≡ w)
    unfolding new_providers wrap_with_circuit_breaker breaker_fetch
    new_providers_open cfg ctx clients name fetch config v w breakers h on opened =
        let (p, same) = new_providers-wrapped (some cfg) ctx clients name fetch h in
        let (e, refused) =
          guarded_open cb behaves (breaker_of name) ctx 0 (p config v) w
            (breakers (breaker_of name)) opened in
        rw same (e, ground arith, ground arith)
