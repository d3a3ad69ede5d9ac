-- ===== src/Dedup/Guarded.antt =====
-- internal/deduplication/circuit_breaker_repository.go, and the service over it.
use yeti.Base.{
  ℕ, String, ◌<>◌, ◌≡◌, Bool, true, false, Option, none, some, arith, ◌==◌, if◌then◌else◌,
  Bool-cases, Option-cases, inl, inr,
}
use yeti.Base.Int.{ℤ}
use yeti.Model.Message.{MessageEnvelope}
use yeti.Errors.Result.{Result, ok, is_err, Context, Result-cases}
use yeti.Breaker.{
  Floats, CircuitBreakerConfig, breaker_config, Gobreaker, Behaves, Phase, guarded, guarded_open,
  guarded_refines, is_open,
}
use yeti.Dedup.Hasher.{HashLib}
use yeti.Dedup.Service.{
  Redis, Service, repo_set_nx, process_over, process, message_hash, handle_redis_error,
}

module _ (floats : Floats) (cb : Gobreaker) (redis : Redis) where
  -- Redis, and the state of the breaker: `none` for a nil breaker.
  abbrev pub Guarded : Type 0
  Guarded = redis.State × Option cb.State

  unfoldable pub new_circuit_breaker_repository : CircuitBreakerConfig floats → Option cb.State
  new_circuit_breaker_repository cfg =
      if cfg.enabled then some (cb.start (breaker_config floats "redis-dedup" cfg)) else none

  unfoldable pub guarded_set_nx : Context → String → ℕ → ℤ → Guarded → Result Bool × Guarded
  guarded_set_nx ctx key now ttl (st, none) =
      let (answer, st') = repo_set_nx redis key now ttl st in (answer, (st', none))
  guarded_set_nx ctx key now ttl (st, some b) =
      let ((answer, st'), b') =
        guarded cb "redis-dedup" ctx 2 (repo_set_nx redis key now ttl) st b in
      (answer, (st', some b'))

  unfoldable pub repository_state : Option cb.State → String
  repository_state none = "disabled"
  repository_state (some b) = elim (cb.phase b) [
    | Phase.closed ↦ "closed"
    | Phase.half_open ↦ "half-open"
    | Phase.open_phase ↦ "open"
  ]

  unfoldable pub repository_is_open : Option cb.State → Bool
  repository_is_open none = false
  repository_is_open (some b) = is_open cb b

  module _ (lib : HashLib) where
    -- `Process` of a service whose repository is under a breaker.
    abbrev pub guarded_process :
        Service → Context → ℕ → MessageEnvelope → Guarded → Result Bool × Guarded
    guarded_process s ctx = process_over lib redis (guarded_set_nx ctx) s ctx

    -- With the breaker disabled, the service answers, and leaves Redis, as without one.
    pub guarded_process_disabled :
        (cfg : CircuitBreakerConfig floats) (s : Service) (ctx : Context) (now : ℕ)
        (msg : MessageEnvelope) (st : redis.State)
        → cfg.enabled ≡ false
        → let (answer, st') = process lib redis s ctx now msg st in
          guarded_process s ctx now msg (st, new_circuit_breaker_repository cfg)
          ≡ (answer, (st', none))
    unfolding guarded_set_nx new_circuit_breaker_repository process
    guarded_process_disabled cfg s ctx now msg st off = elim (Option-cases (ctx.err_at 0)) [
      | inr (e, done) ↦ ground arith
      | inl live ↦ elim (Result-cases (message_hash lib redis s msg)) [
        | inr (e, bad) ↦ ground arith
        | inl (hash, good) ↦ elim (Option-cases (ctx.err_at 1)) [
          | inr (e, done) ↦ ground arith
          | inl live₁ ↦ ground arith
        ]
      ]
    ]

    module _ (behaves : Behaves cb) where
      -- While the breaker is open, Redis is not asked for a message whose hash is computed under a live
      -- context: a service whose fallback is "allow" declares it unique, any other answers an error.
      pub guarded_process_open :
          (s : Service) (ctx : Context) (now : ℕ) (msg : MessageEnvelope) (st : redis.State)
          (b : cb.State) {hash : String}
          → cb.phase b ≡ Phase.open_phase
          → ctx.err_at 0 ≡ none
          → ctx.err_at 1 ≡ none
          → message_hash lib redis s msg ≡ ok hash
          → let (answer, (st', b')) = guarded_process s ctx now msg (st, some b) in
            (st' ≡ st)
            × (if s.cfg.on_redis_error == "allow" then answer ≡ ok true else is_err answer ≡ true)
      unfolding guarded_set_nx handle_redis_error
      guarded_process_open s ctx now msg st b {hash} opened live live₁ good =
          let (e, refused) =
            guarded_open cb behaves "redis-dedup" ctx 2
              (repo_set_nx redis ("dedup:" <> hash) now s.cfg.ttl_seconds) st b opened in
          ground arith

      -- A message that the service under a breaker declares a duplicate is one that the service without
      -- it declares a duplicate, with the same effect on Redis.
      pub guarded_process_duplicate :
          (s : Service) (ctx : Context) (now : ℕ) (msg : MessageEnvelope) (st st' : redis.State)
          (b : cb.State) (b' : Option cb.State)
          → guarded_process s ctx now msg (st, some b) ≡ (ok false, (st', b'))
          → process lib redis s ctx now msg st ≡ (ok false, st')
      unfolding guarded_set_nx handle_redis_error process
      guarded_process_duplicate s ctx now msg st st' b b' h = elim (Option-cases (ctx.err_at 0)) [
        | inr (e, done) ↦ absurd (ground arith)
        | inl live ↦ elim (Result-cases (message_hash lib redis s msg)) [
          | inr (e, bad) ↦ absurd (ground arith)
          | inl (hash, good) ↦ elim (Option-cases (ctx.err_at 1)) [
            | inr (e, done) ↦ absurd (ground arith)
            | inl live₁ ↦
                elim (guarded_refines cb behaves "redis-dedup" ctx 2
                  (repo_set_nx redis ("dedup:" <> hash) now s.cfg.ttl_seconds) st b) [
                    | inl (a, called, same) ↦ ground arith
                    | inr (e, refused, kept) ↦ elim (Bool-cases (s.cfg.on_redis_error == "allow")) [
                      | inl allows ↦ absurd (ground arith)
                      | inr denies ↦ absurd (ground arith)
                    ]
                  ]
          ]
        ]
      ]
