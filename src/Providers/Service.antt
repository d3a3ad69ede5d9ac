-- ===== src/Providers/Service.antt =====
-- The enrichment service of internal/enrichment/service.go over the providers that it registers.
use yeti.Base.{String, ◌≡◌, ◌≢◌, true, false, Option, none, some, arith, ap}
use yeti.Model.Value.{Value, null, Fields, no_fields, insert}
use yeti.Errors.Result.{Result, ok, Context}
use yeti.Breaker.{Floats, CircuitBreakerConfig, Gobreaker, Behaves, Phase}
use yeti.Enrichment.Types.{Rule, World}
use yeti.Enrichment.Types
use yeti.Enrichment.Fetch.{
  resolve_provider_name, fetch_source_data, cache_key, fetch_from_provider_fallback,
}
use yeti.Providers.Query.{convert_source_config}
use yeti.Providers.Guarded.{DataProvider, Clients, new_providers, breaker_of, new_providers_open}

module _ (floats : Floats) (cb : Gobreaker) (cfg : CircuitBreakerConfig floats) (ctx : Context)
    (base : World) (clients : Clients (World.State base)) where
  abbrev pub States : Type 0
  States = base.State × (String → cb.State)

  -- `Fetch` with the source that `convertSourceConfig` makes.
  abbrev pub converted :
      Option (DataProvider States)
      → Option (Types.SourceConfig → Value → States → Result Fields × States)
  converted none = none
  converted (some fetch) = some (λ config. fetch (convert_source_config config))

  -- The world of `base`, with the clients' providers for those of `base`.
  abbrev pub guarded_world : World
  guarded_world = record {
    State = States;
    cache_get = λ key st. (let (val, st') = base.cache_get key st.0 in (val, (st', st.1)));
    cache_set = λ key val ttl st. (base.cache_set key val ttl st.0, st.1);
    marshal = base.marshal;
    unmarshal = base.unmarshal;
    show = base.show;
    describe = base.describe;
    providers = λ name. converted (new_providers floats cb base.State (some cfg) ctx clients name);
  }

  -- While breakers are enabled and the one of a rule's provider is open, a value that is not cached is answered by the
  -- rule's fallback value, if it has one, and the cache and the clients are as the look into the cache
  -- left them: the provider is not asked.
  pub fetch_source_data_open :
      (behaves : Behaves cb) (rule : Rule) (v : Value) (st st₁ : base.State)
      (breakers : String → cb.State) (fetch : DataProvider States)
      → cfg.enabled ≡ true
      → base.cache_get (cache_key base rule v) st ≡ (none, st₁)
      → new_providers floats cb base.State
          (some cfg)
          ctx
          clients
          (resolve_provider_name rule.source_type)
        ≡ some fetch
      → cb.phase
          (breakers (breaker_of floats cb base.State (resolve_provider_name rule.source_type)))
        ≡ Phase.open_phase
      → rule.fallback_value ≢ null
      → let (answer, left) = fetch_source_data guarded_world rule v (st, breakers) in
        (answer ≡ ok (insert "value" rule.fallback_value no_fields, false)) × (left.0 ≡ st₁)
  unfolding fetch_source_data cache_key
  fetch_source_data_open behaves rule v st st₁ breakers fetch on miss given opened fallback =
      let name = resolve_provider_name rule.source_type in
      let config = convert_source_config rule.source_config in
      let (e, refused, kept) =
        new_providers_open floats cb base.State behaves cfg ctx clients name fetch config v st₁
          breakers given on opened in
      let left = (fetch config v (st₁, breakers)).1 in
      let back =
        fetch_from_provider_fallback guarded_world rule v (cache_key guarded_world rule v)
          (st₁, breakers) left {e = e} {fetch = λ c. fetch (convert_source_config c)}
          (ap converted given) (ap (λ answer. (answer, left)) refused) fallback in
      (ground (arith, back), ground (arith, back, kept))
