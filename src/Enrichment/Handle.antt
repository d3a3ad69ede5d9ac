-- ===== src/Enrichment/Handle.antt =====
-- cmd/enrichment-service/app.go: `handleMessage`.
use yeti.Base.{ℕ, String, ◌≡◌, none, some, arith}
use yeti.Model.Value.{time, insert}
use yeti.Model.Message.{MessageEnvelope, made}
use yeti.Errors.Chain.{Err, wrap}
use yeti.Errors.Result.{Context}
use yeti.Broker.Producer.{Producer, Outcome, publish, quiet}
use yeti.Cel.{CelLib}
use yeti.Base.Lists.{All}
use yeti.Base.{false, ◌==◌}
use yeti.Enrichment.Types.{Service, World}
use yeti.Enrichment.Process.{Round, process, process_no_error}

abbrev pub stamped : ℕ → MessageEnvelope → MessageEnvelope
stamped now msg = record msg {
  metadata = record (msg.metadata) {
    enrichment = some (insert "processed_at" (time now) (made msg.metadata.enrichment));
  };
}

module _ (lib : CelLib) (w : World) (producer : Producer) (topic : String) (now : ℕ) where
  abbrev handle_round : Round → Outcome
  handle_round r = elim r.error [
    | some e ↦ quiet
    | none ↦
        publish producer (wrap "failed to publish message")
          (record { topic = topic; msg = stamped now r.msg })
  ]

  unfoldable pub handle_message :
      Service lib → Context → MessageEnvelope → w.State → Outcome × w.State
  handle_message s ctx msg st = let (r, st') = process lib w s ctx msg st in (handle_round r, st')

  -- A message whose enrichment ends in an error is neither published nor reported to the consumer:
  -- the handler answers without an error.
  pub handle_message_failed :
      (s : Service lib) (ctx : Context) (msg : MessageEnvelope) (st : w.State) (e : Err)
      → (process lib w s ctx msg st).0.error ≡ some e
      → (handle_message s ctx msg st).0 ≡ quiet
  unfolding handle_message
  handle_message_failed s ctx msg st e h = ground arith

  -- While the context is live and no rule has the error handling "fail", the handler publishes the
  -- message that `process` leaves, stamped with the time, and nothing else.
  pub handle_message_publishes :
      (s : Service lib) (ctx : Context) (msg : MessageEnvelope) (st : w.State)
      → ((n : ℕ) → ctx.err_at n ≡ none)
      → All (λ r. (r.error_handling == "fail") ≡ false) s.rules
      → (handle_message s ctx msg st).0
        ≡ publish producer
            (wrap "failed to publish message")
            (record { topic = topic; msg = stamped now (process lib w s ctx msg st).0.msg })
  unfolding handle_message
  handle_message_publishes s ctx msg st live h =
      ground (arith, process_no_error lib w s ctx msg st live h)
