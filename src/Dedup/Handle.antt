-- ===== src/Dedup/Handle.antt =====
-- cmd/dedup-service/app.go: `handleMessage`.
use yeti.Base.{ℕ, String, ◌≡◌, ◌≢◌, Bool, true, false, none, some, [], arith}
use yeti.Model.Message.{MessageEnvelope}
use yeti.Errors.Chain.{Err, wrap}
use yeti.Errors.Result.{Result, ok, err, Context}
use yeti.Broker.Producer.{Producer, Outcome, publish, quiet}
use yeti.Dedup.Hasher.{HashLib}
use yeti.Dedup.Service.{Redis, Service, process}

abbrev pub marked_unique : ℕ → MessageEnvelope → MessageEnvelope
marked_unique now msg = record msg {
  metadata = record (msg.metadata) {
    deduplication = some (record { is_unique = true; checked_at = now });
  };
}

module _ (lib : HashLib) (redis : Redis) (producer : Producer) (topic : String) where
  abbrev handle_verdict : ℕ → MessageEnvelope → Result Bool → Outcome
  handle_verdict now msg (err e) = quiet
  handle_verdict now msg (ok false) = quiet
  handle_verdict now msg (ok true) =
      publish producer (wrap "failed to publish message")
        (record { topic = topic; msg = marked_unique now msg })

  -- `now` is the time of the check in Redis, `later` the time of the mark.
  unfoldable pub handle_message :
      Service → Context → ℕ → ℕ → MessageEnvelope → redis.State → Outcome × redis.State
  handle_message s ctx now later msg st =
      let (verdict, st') = process lib redis s ctx now msg st in
      (handle_verdict later msg verdict, st')

  -- A message whose check errs is dropped: the handler returns no error, so the consumer neither
  -- retries the message nor sends it to the dead-letter topic, and nothing is published.
  pub handle_message_drops :
      (s : Service) (ctx : Context) (now later : ℕ) (msg : MessageEnvelope) (st : redis.State)
      {e : Err}
      → (process lib redis s ctx now msg st).0 ≡ err e
      → (handle_message s ctx now later msg st).0 ≡ quiet
  unfolding handle_message
  handle_message_drops s ctx now later msg st h = ground arith

  -- When the handler returns an error, the message was declared unique, nothing was published, and
  -- Redis is as the check left it: the key of the message is not taken back.
  pub handle_message_error :
      (s : Service) (ctx : Context) (now later : ℕ) (msg : MessageEnvelope) (st : redis.State)
      → (handle_message s ctx now later msg st).0.error ≢ none
      → ((process lib redis s ctx now msg st).0 ≡ ok true)
        × ((handle_message s ctx now later msg st).0.published ≡ [])
        × ((handle_message s ctx now later msg st).1 ≡ (process lib redis s ctx now msg st).1)
  unfolding handle_message
  handle_message_error s ctx now later msg st h = ground arith
