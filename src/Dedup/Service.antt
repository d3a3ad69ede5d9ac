-- ===== src/Dedup/Service.antt =====
-- internal/deduplication/service.go and repository.go. Redis is the parameter `Redis`; `now` is
-- what `time.Now().Unix()` returns.
use yeti.Base.{
  ℕ, String, ◌<>◌, ◌≡◌, Bool, true, false, Option, none, some, List, [], ◌∷◌, arith, ◌==◌,
  if◌then◌else◌,
}
use yeti.Base.Int.{ℤ}
use yeti.Base.Lists.{is_empty}
use yeti.Model.Message.{MessageEnvelope}
use yeti.Errors.Chain.{Err, plain, wrap}
use yeti.Errors.Result.{Result, ok, err, wrap_err, is_err, Context}
use yeti.Dedup.Hasher.{HashLib, compute_hash}
use yeti.Dedup.Data.{build_message_data}

-- A store with `SETNX key value EX ttl`, which answers whether the key was set.
pub record Redis : Type 1 where
  pub State : Type 0
  pub set_nx : String → ℕ → ℤ → State → Result Bool × State

pub record DeduplicationConfig : Type 0 where
  pub hash_algorithm : String
  pub ttl_seconds : ℤ
  pub on_redis_error : String
  pub fields_to_hash : List String

pub record Service : Type 0 where
  pub cfg : DeduplicationConfig
  pub fields_to_hash : List String

abbrev pub default_fields : List String
default_fields = "id" ∷ "source" ∷ []

unfoldable pub new_service : DeduplicationConfig → Service
new_service cfg = record {
  cfg = cfg;
  fields_to_hash = if is_empty cfg.fields_to_hash then default_fields else cfg.fields_to_hash;
}

-- `UpdateFieldsToHash`, for a list that is not nil.
unfoldable pub update_fields_to_hash : List String → Service → Service × Option Err
update_fields_to_hash [] s = (s, some (plain "fields list cannot be empty"))
update_fields_to_hash (f ∷ fields) s = (record s { fields_to_hash = f ∷ fields }, none)

pub data RedisErrorHandlingStatus : Type 0 where
  deny allow : RedisErrorHandlingStatus

unfoldable pub get_redis_error_handling_status : Service → RedisErrorHandlingStatus
get_redis_error_handling_status s = if s.cfg.on_redis_error == "allow" then allow else deny

unfoldable pub handle_redis_error : Service → Err → String → Result Bool
unfolding get_redis_error_handling_status
handle_redis_error s e id = elim (get_redis_error_handling_status s) [
  | allow ↦ ok true
  | deny ↦ err (wrap ("redis error during dedup check for message " <> id) e)
]

-- `SetNX` of `RedisRepository`.
unfoldable pub repo_set_nx :
    (redis : Redis) → String → ℕ → ℤ → redis.State → Result Bool × redis.State
repo_set_nx redis key now ttl st =
    let (answer, st') = redis.set_nx key now ttl st in (wrap_err "redis SetNX failed" answer, st')

module _ (lib : HashLib) (redis : Redis) where
  abbrev pub message_hash : Service → MessageEnvelope → Result String
  message_hash s msg =
      compute_hash lib s.cfg.hash_algorithm (build_message_data msg) s.fields_to_hash

  abbrev pub answered : Service → String → Result Bool → Result Bool
  answered s id (ok b) = ok b
  answered s id (err e) = handle_redis_error s e id

  -- Over a repository, whose `SetNX` is `repo`.
  abbrev pub process_over :
      {S : Type 0}
      → (String → ℕ → ℤ → S → Result Bool × S)
      → Service
      → Context
      → ℕ
      → MessageEnvelope
      → S
      → Result Bool × S
  process_over repo s ctx now msg st = elim (ctx.err_at 0) [
    | some e ↦ (err e, st)
    | none ↦
        elim (wrap_err ("failed to compute hash for message " <> msg.id) (message_hash s msg)) [
          | err e ↦ (err e, st)
          | ok hash ↦ elim (ctx.err_at 1) [
            | some e ↦ (err e, st)
            | none ↦
                let (answer, st') = repo ("dedup:" <> hash) now s.cfg.ttl_seconds st in
                (answered s msg.id answer, st')
          ]
        ]
  ]

  unfoldable pub process :
      Service → Context → ℕ → MessageEnvelope → redis.State → Result Bool × redis.State
  process = process_over (repo_set_nx redis)

  -- The service has fields to hash.
  abbrev pub IsReady : Service → Type 0
  IsReady s = is_empty s.fields_to_hash ≡ false

  -- A service has fields to hash from the start, whatever its configuration lists, and keeps them
  -- through every update, where one with no fields changes nothing. With fields to hash, computing a
  -- hash never fails.
  pub message_hash-IsReady :
      (cfg : DeduplicationConfig) (s : Service) (fields : List String) (msg : MessageEnvelope)
      → IsReady s
      → IsReady (new_service cfg)
        × IsReady (update_fields_to_hash fields s).0
        × ((update_fields_to_hash [] s).0 ≡ s)
        × (is_err (message_hash s msg) ≡ false)
  unfolding new_service update_fields_to_hash compute_hash
  message_hash-IsReady cfg s fields msg h = ground arith

  -- When Redis fails, a service whose fallback is "allow" declares the message unique, and any other
  -- returns an error that wraps the one of Redis; Redis is asked once in either case.
  pub process_redis_error :
      (s : Service) (ctx : Context) (now : ℕ) (msg : MessageEnvelope) (st st' : redis.State)
      {hash : String} {e : Err}
      → ctx.err_at 0 ≡ none
      → ctx.err_at 1 ≡ none
      → message_hash s msg ≡ ok hash
      → redis.set_nx ("dedup:" <> hash) now s.cfg.ttl_seconds st ≡ (err e, st')
      → process s ctx now msg st ≡ (
        if s.cfg.on_redis_error == "allow"
            then ok true
            else err (
                wrap
                  ("redis error during dedup check for message " <> msg.id)
                  (wrap "redis SetNX failed" e)),
        st',
      )
  unfolding process handle_redis_error repo_set_nx
  process_redis_error s ctx now msg st st' c₀ c₁ h r = ground arith
