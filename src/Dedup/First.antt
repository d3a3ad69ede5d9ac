-- ===== src/Dedup/First.antt =====
-- A run of messages against a Redis that answers: exactly the first of each hash is unique.
use yeti.Base.{
  ℕ, String, ◌<>◌, ◌≡◌, refl, ◌∙◌, sym, Bool, not, ◌||◌, none, List, [], ◌∷◌, map, arith, ◌==◌, ap,
  eq_refl, text-cases, inl, inr,
}
use mathlib.Core.Path.{fun_ext}
use text.Mathlib.TextLemmas.{append_cancel_left}
use yeti.Base.Int.{ℤ}
use yeti.Model.Message.{MessageEnvelope}
use yeti.Errors.Result.{Result, ok, Context}
use yeti.Dedup.Hasher.{HashLib}
use yeti.Dedup.Service.{Redis, Service, message_hash, process, repo_set_nx}

-- `SETNX` as Redis documents it, while it answers and no key expires: it sets the key exactly if
-- the key is not held, and then the key is held and the other keys are as before.
pub record Answers (redis : Redis) (holds : Redis.State redis → String → Bool) : Type 0 where
  pub answer :
      (key : String) (now : ℕ) (ttl : ℤ) (st : redis.State)
      → (redis.set_nx key now ttl st).0 ≡ ok (not (holds st key))
  pub held :
      (key k : String) (now : ℕ) (ttl : ℤ) (st : redis.State)
      → holds (redis.set_nx key now ttl st).1 k ≡ (key == k || holds st k)

key_eq : (h k : String) → ("dedup:" <> h == "dedup:" <> k) ≡ (h == k)
key_eq h k = elim (text-cases h k) [
  | inl (e, p) ↦ simp (p, eq_refl)
  | inr (e, differ) ↦ elim (text-cases ("dedup:" <> h) ("dedup:" <> k)) [
    | inl (e', p) ↦ absurd (differ (append_cancel_left "dedup:" h k p))
    | inr (e', p) ↦ e' ∙ sym e
  ]
]

-- A message as it comes in: its context, the time and the envelope.
pub record Arrival : Type 0 where
  pub ctx : Context
  pub now : ℕ
  pub msg : MessageEnvelope

module _ (lib : HashLib) (redis : Redis) (s : Service) where
  unfoldable pub process_all : List Arrival → redis.State → List (Result Bool)
  process_all [] st = []
  process_all (a ∷ l) st =
      let (verdict, st') = process lib redis s a.ctx a.now a.msg st in verdict ∷ process_all l st'

  -- The arrival's context is live, and its hash is `hash`.
  abbrev pub HasHash : Arrival → String → Type 0
  HasHash a hash =
      (a.ctx.err_at 0 ≡ none) × (a.ctx.err_at 1 ≡ none) × (message_hash lib redis s a.msg ≡ ok hash)

  abbrev pub HaveHashes : List Arrival → List String → Type 0
  HaveHashes [] [] = Unit
  HaveHashes [] (h ∷ hashes) = ⊥
  HaveHashes (a ∷ l) [] = ⊥
  HaveHashes (a ∷ l) (h ∷ hashes) = HasHash a h × HaveHashes l hashes

  -- Whether each text is new: neither in `seen` nor among those before it.
  unfoldable pub first_seen : (String → Bool) → List String → List Bool
  first_seen seen [] = []
  first_seen seen (h ∷ hashes) = not (seen h) ∷ first_seen (λ k. h == k || seen k) hashes

  module _ (holds : redis.State → String → Bool) (works : Answers redis holds) where
    process_answers :
        (a : Arrival) (st : redis.State) {hash : String}
        → HasHash a hash
        → process lib redis s a.ctx a.now a.msg st ≡ (
          ok (not (holds st ("dedup:" <> hash))),
          (redis.set_nx ("dedup:" <> hash) a.now s.cfg.ttl_seconds st).1,
        )
    unfolding process repo_set_nx
    process_answers a st {hash} h =
        ground (arith, works.answer ("dedup:" <> hash) a.now s.cfg.ttl_seconds st)

    held_next :
        (a : Arrival) (st : redis.State) (hash k : String)
        → holds (redis.set_nx ("dedup:" <> hash) a.now s.cfg.ttl_seconds st).1 ("dedup:" <> k)
          ≡ (hash == k || holds st ("dedup:" <> k))
    held_next a st hash k = rw (works.held, key_eq) refl

    -- Where Redis answers, no key expires, and each message comes with a context that is live at both
    -- checks and has a hash that is computed, a message is declared unique exactly when its hash was not
    -- in Redis before the run and no earlier message of the run has it, and no message errs.
    pub process_all_first :
        (l : List Arrival) (hashes : List String) (st : redis.State)
        → HaveHashes l hashes
        → process_all l st ≡ map ok (first_seen (λ k. holds st ("dedup:" <> k)) hashes)
    unfolding process_all first_seen
    process_all_first [] [] st h = refl
    process_all_first [] (h ∷ hashes) st none_left = absurd none_left
    process_all_first (a ∷ l) [] st none_left = absurd none_left
    process_all_first (a ∷ l) (h ∷ hashes) st (here, later) = rw (process_answers a st here) (
        ap (λ r. ok (not (holds st ("dedup:" <> h))) ∷ r)
          (process_all_first l hashes (redis.set_nx ("dedup:" <> h) a.now s.cfg.ttl_seconds st).1
              later
            ∙ ap (λ f. map ok (first_seen f hashes)) (fun_ext (held_next a st h))))
