-- ===== src/Enrichment/Fetch.antt =====
-- `fetchSourceData` and what it calls: the cache, then a provider, then the fallback.
use yeti.Base.{
  String, ◌<>◌, ◌≡◌, ◌≢◌, Bool, true, false, Option, none, some, arith, ◌==◌, not, Bool-cases, inl,
  inr, if◌then◌else◌,
}
use yeti.Base.Int.{ℤ}
use yeti.Model.Value.{Value, null, Fields, no_fields, insert}
use yeti.Errors.Chain.{Err, plain, wrap, skip_rule}
use yeti.Errors.Result.{Result, ok, err}
use yeti.Enrichment.Types.{SourceConfig, Rule, World, is_null}

unfoldable pub resolve_provider_name : String → String
resolve_provider_name source_type =
    if source_type == "database"
    then "mongodb"
    else if source_type == "redis"
    then "cache"
    else source_type

-- `IsSkipRuleError`: the error itself, not one in its chain.
unfoldable pub is_skip_rule_error : Err → Bool
is_skip_rule_error (skip_rule rule reason) = true
is_skip_rule_error e = false

module _ (w : World) where
  open w use {State, cache_get, cache_set, marshal, unmarshal, show, describe, providers}

  -- The source data, and whether they came from the cache.
  abbrev pub Fetched : Type 0
  Fetched = Result (Fields × Bool)

  unfoldable pub handle_fetch_error : Rule → String → Err → Fetched
  handle_fetch_error rule provider_name e =
      if is_null rule.fallback_value
      then (if rule.error_handling == "fail"
          then err (
              wrap
                ("enrichment failed for rule " <> rule.name <> " (field: " <> rule.field_to_enrich
                  <> ", provider: " <> provider_name <> ")")
                e)
          else err (skip_rule rule.name (describe e)))
      else ok (insert "value" rule.fallback_value no_fields, false)

  unfoldable pub cache_source_data : String → Fields → ℤ → State → State
  cache_source_data key source_data ttl st = elim (marshal source_data) [
    | none ↦ st
    | some bytes ↦ cache_set key bytes ttl st
  ]

  abbrev after_fetch : Rule → String → String → Result Fields × State → Fetched × State
  unfolding handle_fetch_error cache_source_data
  after_fetch rule name key (err e, st) = (handle_fetch_error rule name e, st)
  after_fetch rule name key (ok fetched, st) =
      (ok (fetched, false), cache_source_data key fetched rule.cache_ttl_seconds st)

  unfoldable pub fetch_from_provider : Rule → Value → String → State → Fetched × State
  unfolding resolve_provider_name after_fetch
  fetch_from_provider rule field_value key st =
      let name = resolve_provider_name rule.source_type in
      elim (providers name) [
        | none ↦ (
          err (plain ("unknown source type: " <> rule.source_type <> " (provider not registered)")),
          st,
        )
        | some fetch ↦ after_fetch rule name key (fetch rule.source_config field_value st)
      ]

  abbrev from_cache : Result Fields → Fetched
  from_cache (err e) = err e
  from_cache (ok source_data) = ok (source_data, true)

  unfoldable pub cache_key : Rule → Value → String
  cache_key rule field_value = "enrich:" <> rule.id <> ":" <> show field_value

  abbrev after_get : Rule → Value → Option String × State → Fetched × State
  unfolding cache_key fetch_from_provider
  after_get rule field_value (some val, st) = (from_cache (unmarshal val), st)
  after_get rule field_value (none, st) =
      fetch_from_provider rule field_value (cache_key rule field_value) st

  unfoldable pub fetch_source_data : Rule → Value → State → Fetched × State
  unfolding cache_key after_get
  fetch_source_data rule field_value st =
      after_get rule field_value (cache_get (cache_key rule field_value) st)

  -- What fails to be fetched from a provider is answered by the fallback value where the rule has
  -- one, also under "fail", and is then not cached.
  pub fetch_from_provider_fallback :
      (rule : Rule) (v : Value) (key : String) (st st' : State) {e : Err}
      {fetch : SourceConfig → Value → State → Result Fields × State}
      → providers (resolve_provider_name rule.source_type) ≡ some fetch
      → fetch rule.source_config v st ≡ (err e, st')
      → rule.fallback_value ≢ null
      → fetch_from_provider rule v key st
        ≡ (ok (insert "value" rule.fallback_value no_fields, false), st')
  unfolding fetch_from_provider
  fetch_from_provider_fallback rule v key st st' p f given = ground arith

  -- Without a fallback value, what fails to be fetched from a provider is an error that asks to skip
  -- the rule exactly when the rule's error handling is not "fail".
  pub fetch_from_provider_failed :
      (rule : Rule) (v : Value) (key : String) (st st' : State) {e : Err}
      {fetch : SourceConfig → Value → State → Result Fields × State}
      → providers (resolve_provider_name rule.source_type) ≡ some fetch
      → fetch rule.source_config v st ≡ (err e, st')
      → rule.fallback_value ≡ null
      → (x : Err) × (fetch_from_provider rule v key st ≡ (err x, st'))
        × (is_skip_rule_error x ≡ not (rule.error_handling == "fail"))
  unfolding fetch_from_provider is_skip_rule_error
  fetch_from_provider_failed rule v key st st' {e} p f nil =
      let name = resolve_provider_name rule.source_type in
      elim (Bool-cases (rule.error_handling == "fail")) [
        | inl fails ↦ (
          wrap
              ("enrichment failed for rule " <> rule.name <> " (field: " <> rule.field_to_enrich
                <> ", provider: " <> name <> ")")
              e,
          ground arith,
          ground arith,
        )
        | inr skips ↦ (skip_rule rule.name (describe e), ground arith, ground arith)
      ]

  -- What a provider gave is kept under the key of the rule and the field's value: while the cache
  -- holds what was set and JSON gives back what was encoded, the next fetch of the rule for that
  -- value returns the same data from the cache, and asks no provider.
  pub fetch_source_data_again :
      (rule : Rule) (v : Value) (st st₁ st₂ : State) {d : Fields} {bytes : String}
      {fetch : SourceConfig → Value → State → Result Fields × State}
      → cache_get (cache_key rule v) st ≡ (none, st₁)
      → providers (resolve_provider_name rule.source_type) ≡ some fetch
      → fetch rule.source_config v st₁ ≡ (ok d, st₂)
      → marshal d ≡ some bytes
      → unmarshal bytes ≡ ok d
      → ((key val : String) (ttl : ℤ) (s : State)
          → cache_get key (cache_set key val ttl s) ≡ (some val, cache_set key val ttl s))
      → let first = fetch_source_data rule v st in
        (first.0 ≡ ok (d, false)) × (fetch_source_data rule v first.1 ≡ (ok (d, true), first.1))
  unfolding fetch_source_data
  fetch_source_data_again rule v st st₁ st₂ {d} {bytes} miss p f m u keeps =
      ground (arith, keeps (cache_key rule v) bytes rule.cache_ttl_seconds st₂)
