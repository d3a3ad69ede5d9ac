-- ===== src/Enrichment/Keys.antt =====
-- `fetchSourceData` of internal/enrichment/service.go: what its keys keep apart in the cache.
use Prim.Native.String.{count}
use text.Mathlib.TextLemmas.{append_cancel_left, append_inj}
use yeti.Base.{String, false, ◌≡◌, ◌≢◌, ◌⊎◌, ◌<>◌, none, some, arith, inl, inr, Option-cases}
use yeti.Base.Int.{ℤ}
use yeti.Model.Value.{Value, Fields}
use yeti.Errors.Result.{Result, ok}
use yeti.Enrichment.Types.{SourceConfig, Rule, World}
use yeti.Enrichment.Fetch.{
  resolve_provider_name, cache_key, fetch_from_provider, fetch_source_data, cache_source_data,
}

module _ (w : World) where
  open w use {State, cache_get, cache_set, marshal, show, providers}

  -- Where the IDs are equally long, as UUIDs are, a key names its rule and the text of the value.
  cache_key_inj :
      (rule rule' : Rule) (v v' : Value)
      → count rule.id ≡ count rule'.id
      → cache_key w rule v ≡ cache_key w rule' v'
      → (rule.id ≡ rule'.id) × (show v ≡ show v')
  unfolding cache_key
  cache_key_inj rule rule' v v' long h =
      let (ids, rest) =
        append_inj
          (append_cancel_left "enrich:" (rule.id <> (":" <> show v)) (rule'.id <> (":" <> show v'))
            h)
          long in
      (ids, append_cancel_left ":" (show v) (show v') rest)

  -- What a provider gave to one fetch, whose key the cache did not have, does not answer a fetch for
  -- another rule, whose ID is as long as that of the first, or for a value that is shown as another
  -- text: if the cache has no entry for that one before the data are set, and setting a key brings no
  -- other one, that fetch is answered by the provider of its own rule.
  pub fetch_source_data_apart :
      (rule rule' : Rule) (v v' : Value) (st st₁ st₂ : State) {d : Fields}
      {fetch : SourceConfig → Value → State → Result Fields × State}
      → count rule.id ≡ count rule'.id
      → (rule.id ≢ rule'.id) ⊎ (show v ≢ show v')
      → cache_get (cache_key w rule v) st ≡ (none, st₁)
      → providers (resolve_provider_name rule.source_type) ≡ some fetch
      → fetch rule.source_config v st₁ ≡ (ok d, st₂)
      → (cache_get (cache_key w rule' v') st₂).0 ≡ none
      → ((key key' val : String) (ttl : ℤ) (s : State)
          → key ≢ key'
          → (cache_get key' s).0 ≡ none
          → (cache_get key' (cache_set key val ttl s)).0 ≡ none)
      → let (first, later) = fetch_source_data w rule v st in
        (first ≡ ok (d, false))
        × (fetch_source_data w rule' v' later
            ≡ fetch_from_provider w rule' v'
                (cache_key w rule' v')
                (cache_get (cache_key w rule' v') later).1)
  unfolding fetch_source_data fetch_from_provider cache_source_data
  fetch_source_data_apart rule rule' v v' st st₁ st₂ {d} long apart miss p f absent keeps =
      let key = cache_key w rule v in
      let key' = cache_key w rule' v' in
      let other : key ≢ key' = λ same.
        let (ids, texts) = cache_key_inj rule rule' v v' long same in
        elim apart [ inl ids_differ ↦ ids_differ ids | inr texts_differ ↦ texts_differ texts ] in
      elim (Option-cases (marshal d)) [
        | inl failed ↦ ground arith
        | inr (bytes, made) ↦
            ground (arith, keeps key key' bytes rule.cache_ttl_seconds st₂ other absent)
      ]
