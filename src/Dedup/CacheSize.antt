-- ===== src/Dedup/CacheSize.antt =====
-- internal/deduplication: `GetCacheSize` of the repositories, and the updater of the measured size in
-- service.go. What the iterator of Redis gives is a parameter.
use yeti.Base.{
  ℕ, suc, ◌+◌, String, ◌≡◌, ◌↔◌, ap, Bool, true, false, Option, none, some, List, [], ◌∷◌, ◌++◌,
  arith, if◌then◌else◌, Option-cases, inl, inr,
}
use yeti.Base.Int.{pos}
use yeti.Base.Lists.{length}
use yeti.Errors.Chain.{Err, wrap}
use yeti.Errors.Result.{Result, ok, err, Context}
use yeti.Breaker.{Gobreaker, guarded}
use yeti.Metrics.Samples.{Sample, set_dedup_cache_size}

-- The loop over the keys, of which `count` were counted; the context is checked at each key, for the
-- k-th time and on, and `failure` is the error of the iterator.
unfoldable pub count_keys : Context → ℕ → List String → ℕ → Option Err → Result ℕ
count_keys ctx k [] count none = ok count
count_keys ctx k [] count (some e) = err (wrap "redis scan failed" e)
count_keys ctx k (key ∷ keys) count failure = elim (ctx.err_at k) [
  | some e ↦ err e
  | none ↦ count_keys ctx (suc k) keys (suc count) failure
]

unfoldable pub get_cache_size : Context → ℕ → List String → Option Err → Result ℕ
get_cache_size ctx k keys failure = count_keys ctx k keys 0 failure

-- No check of the context before the k-th and the one behind the keys fails.
abbrev pub IsLive : Context → ℕ → List String → Type 0
IsLive ctx k [] = Unit
IsLive ctx k (key ∷ keys) = (ctx.err_at k ≡ none) × IsLive ctx (suc k) keys

count_keys_iff :
    (ctx : Context) (k : ℕ) (keys : List String) (count : ℕ) (failure : Option Err) (n : ℕ)
    → (count_keys ctx k keys count failure ≡ ok n)
      ↔ ((IsLive ctx k keys) × (failure ≡ none) × (n ≡ count + length keys))
unfolding count_keys
count_keys_iff ctx k [] count none n = ground arith
count_keys_iff ctx k [] count (some e) n = ground arith
count_keys_iff ctx k (key ∷ keys) count failure n = elim (Option-cases (ctx.err_at k)) [
  | inr (e, failed) ↦ ground arith
  | inl live ↦ ground (arith, count_keys_iff ctx (suc k) keys (suc count) failure n)
]

-- The size is answered exactly when the context lasts over all keys and the scan does not fail, and is
-- the number of keys that the scan gave.
pub get_cache_size_iff :
    (ctx : Context) (k : ℕ) (keys : List String) (failure : Option Err) (n : ℕ)
    → (get_cache_size ctx k keys failure ≡ ok n)
      ↔ ((IsLive ctx k keys) × (failure ≡ none) × (n ≡ length keys))
unfolding get_cache_size
get_cache_size_iff ctx k keys failure n = ground (arith, count_keys_iff ctx k keys 0 failure n)

module _ (cb : Gobreaker) where
  abbrev sized : {A : Type 0} → Result ℕ → A → Result ℕ × A
  sized answer a = (answer, a)

  -- `GetCacheSize` under a breaker, `none` for a nil one. Two checks of the context come before those
  -- of the scan.
  unfoldable pub guarded_get_cache_size :
      Context → List String → Option Err → Option cb.State → Result ℕ × Option cb.State
  guarded_get_cache_size ctx keys failure none = (get_cache_size ctx 0 keys failure, none)
  guarded_get_cache_size ctx keys failure (some b) =
      let ((answer, _), b') =
        guarded cb "redis-dedup" ctx 0 (sized (get_cache_size ctx 2 keys failure)) (tt {0}) b in
      (answer, some b')

-- What the loop of the updater meets: a tick, with the two errors of its context and what the
-- repository answers, or the end by the channel or by the context.
pub data Wake : Type 0 where
  tick : Option Err → Result ℕ → Option Err → Wake
  channel_closed : Wake
  context_done : Wake

-- Whether the loop goes on after a tick, and what it measured.
abbrev on_tick : Option Err → Result ℕ → Option Err → Bool × List Sample
on_tick (some e) size later = (false, [])
on_tick none (err x) (some e) = (false, [])
on_tick none (err x) none = (true, [])
on_tick none (ok size) (some e) = (false, [])
on_tick none (ok size) none = (true, set_dedup_cache_size (pos size) ∷ [])

abbrev go_on : Bool × List Sample → List Sample → List Sample
go_on (true, samples) later = samples ++ later
go_on (false, samples) later = samples

unfoldable pub update_cache_size_metrics : List Wake → List Sample
update_cache_size_metrics [] = []
update_cache_size_metrics (channel_closed ∷ wakes) = []
update_cache_size_metrics (context_done ∷ wakes) = []
update_cache_size_metrics (tick e size later ∷ wakes) =
    go_on (on_tick e size later) (update_cache_size_metrics wakes)

-- Nothing is measured after the updater is stopped, by its channel or by its context.
pub update_cache_size_metrics_stops :
    (before after : List Wake)
    → (update_cache_size_metrics (before ++ (channel_closed ∷ after))
        ≡ update_cache_size_metrics before)
      × (update_cache_size_metrics (before ++ (context_done ∷ after))
          ≡ update_cache_size_metrics before)
unfolding update_cache_size_metrics
update_cache_size_metrics_stops [] after = ground arith
update_cache_size_metrics_stops (channel_closed ∷ before) after = ground arith
update_cache_size_metrics_stops (context_done ∷ before) after = ground arith
update_cache_size_metrics_stops (tick e size later ∷ before) after =
    let (by_channel, by_context) = update_cache_size_metrics_stops before after in
    (ap (go_on (on_tick e size later)) by_channel, ap (go_on (on_tick e size later)) by_context)

-- `StopCacheMetricsUpdater`, where `closed` is whether the channel is: a second `close` panics, which
-- is `none`.
unfoldable pub stop_cache_metrics_updater : Bool → Option Bool
stop_cache_metrics_updater closed = if closed then none else some true
