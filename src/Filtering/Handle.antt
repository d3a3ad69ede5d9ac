-- ===== src/Filtering/Handle.antt =====
-- cmd/filtering-service/app.go: `handleMessage`.
use yeti.Base.{ℕ, String, ◌≡◌, true, false, none, some, List, [], arith, ◌==◌, if◌then◌else◌}
use yeti.Base.Lists.{all}
use yeti.Model.Message.{MessageEnvelope}
use yeti.Errors.Result.{ok, err, Context}
use yeti.Broker.Producer.{Producer, Outcome, publish, quiet}
use yeti.Cel.{CelLib}
use yeti.Filtering.{Service, filter}
use yeti.Filtering.Verdict.{passes, filter_verdict}

abbrev pub output_topic_or : String → String → String
output_topic_or d topic = if topic == "" then d else topic

abbrev pub with_filters : ℕ → List String → MessageEnvelope → MessageEnvelope
with_filters now rule_ids msg = record msg {
  metadata = record (msg.metadata) {
    filters_applied = some (record { passed_at = now; rule_ids = rule_ids });
  };
}

module _ (lib : CelLib) (producer : Producer) (topic : String) (now : ℕ) where
  unfoldable pub handle_message : Service lib → Context → MessageEnvelope → Outcome
  handle_message s ctx msg = elim (filter lib s ctx msg) [
    | err e ↦ record { published = []; error = some e }
    | ok (false, applied) ↦ quiet
    | ok (true, applied) ↦
        publish producer (λ e. e)
          (record {
            topic = output_topic_or "dedup_events" topic;
            msg = with_filters now applied msg;
          })
  ]

  -- While the context is live, a message that some rule stops is dropped in silence: nothing is
  -- published, and the handler returns no error.
  pub handle_message_stopped :
      (s : Service lib) (ctx : Context) (msg : MessageEnvelope)
      → ((k : ℕ) → ctx.err_at k ≡ none)
      → all (passes lib s ctx msg) s.rules ≡ false
      → handle_message s ctx msg ≡ quiet
  unfolding handle_message
  handle_message_stopped s ctx msg live stops = ground (arith, filter_verdict lib s ctx msg live)
