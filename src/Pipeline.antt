-- ===== src/Pipeline.antt =====
-- A message on its way through the handlers of cmd/filtering-service, cmd/dedup-service and
-- cmd/enrichment-service, each of which publishes to the topic that the next consumes.
use yeti.Base.{
  ap, ℕ, String, ◌≡◌, refl, true, false, Option, none, some, List, [], ◌∷◌, arith, ◌==◌,
  Option-cases, inl, inr,
}
use yeti.Base.Lists.{All}
use yeti.Model.Value.{Fields, lookup, time, lookup-insert}
use yeti.Model.Message.{MessageEnvelope, made, lookup_nil}
use yeti.Errors.Chain.{Err, wrap}
use yeti.Errors.Result.{Result-cases, Context}
use yeti.Broker.Producer.{Producer, Sent, publish}
use yeti.Cel.{CelLib}
use yeti.Filtering
use yeti.Filtering.Handle as FilteringApp
use yeti.Dedup.Hasher.{HashLib}
use yeti.Dedup.Service as Deduplication
use yeti.Dedup.Handle as DedupApp
use yeti.Enrichment.Types
use yeti.Enrichment.Process
use yeti.Enrichment.Handle as EnrichmentApp

lookup-made : (k : String) (o : Option Fields) → lookup k (made o) ≡ lookup_nil k o
unfolding lookup
lookup-made k none = refl
lookup-made k (some d) = refl

publish-published :
    (p : Producer) (on_error : Err → Err) (m x : Sent)
    → (publish p on_error m).published ≡ x ∷ []
    → x ≡ m
publish-published p on_error m x h = elim (Option-cases (p m)) [
  | inl taken ↦ ground arith
  | inr (e, failed) ↦ absurd (ground arith)
]

module _ (lib : CelLib) (producer : Producer) (topic : String) (now : ℕ) where
  filtered :
      (s : Filtering.Service lib) (ctx : Context) (msg : MessageEnvelope) (x : Sent)
      → (FilteringApp.handle_message lib producer topic now s ctx msg).published ≡ x ∷ []
      → (ids : List String) × (x.msg ≡ FilteringApp.with_filters now ids msg)
  unfolding FilteringApp.handle_message
  filtered s ctx msg x h =
      let sent : List String → Sent = λ ids. record {
        topic = FilteringApp.output_topic_or "dedup_events" topic;
        msg = FilteringApp.with_filters now ids msg;
      } in
      elim (Result-cases (Filtering.filter lib s ctx msg)) [
        | inr (e, failed) ↦ absurd (ground arith)
        | inl ((false, ids), stopped) ↦ absurd (ground arith)
        | inl ((true, ids), passed) ↦
            (ids, ap (λ y. y.msg) (publish-published producer (λ e. e) (sent ids) x (ground arith)))
      ]

module _ (lib : HashLib) (redis : Deduplication.Redis) (producer : Producer) (topic : String) where
  unique :
      (s : Deduplication.Service) (ctx : Context) (now later : ℕ) (msg : MessageEnvelope)
      (st : redis.State) (x : Sent)
      → (DedupApp.handle_message lib redis producer topic s ctx now later msg st).0.published
        ≡ x ∷ []
      → x.msg ≡ DedupApp.marked_unique later msg
  unfolding DedupApp.handle_message
  unique s ctx now later msg st x h =
      let sent : Sent = record { topic = topic; msg = DedupApp.marked_unique later msg } in
      elim (Result-cases (Deduplication.process lib redis s ctx now msg st).0) [
        | inr (e, failed) ↦ absurd (ground arith)
        | inl (false, duplicate) ↦ absurd (ground arith)
        | inl (true, first) ↦
            ap (λ y. y.msg)
              (publish-published producer (wrap "failed to publish message") sent x (ground arith))
      ]

module _ (lib : CelLib) (w : Types.World) (producer : Producer) (topic : String) (now : ℕ) where
  enriched :
      (s : Types.Service lib) (ctx : Context) (msg : MessageEnvelope) (st : w.State) (x : Sent)
      → (EnrichmentApp.handle_message lib w producer topic now s ctx msg st).0.published ≡ x ∷ []
      → x.msg ≡ EnrichmentApp.stamped now (Process.process lib w s ctx msg st).0.msg
  unfolding EnrichmentApp.handle_message
  enriched s ctx msg st x h =
      let round = (Process.process lib w s ctx msg st).0 in
      let sent : Sent = record { topic = topic; msg = EnrichmentApp.stamped now round.msg } in
      elim (Option-cases round.error) [
        | inr (e, failed) ↦ absurd (ground arith)
        | inl fine ↦
            ap (λ y. y.msg)
              (publish-published producer (wrap "failed to publish message") sent x (ground arith))
      ]

module _ (lib : CelLib) (hash : HashLib) (redis : Deduplication.Redis) (w : Types.World)
    (producer : Producer) (topic₁ topic₂ topic₃ : String)
    (passed_at checked_at marked_at stamped_at : ℕ) (filtering : Filtering.Service lib)
    (dedup : Deduplication.Service) (enrichment : Types.Service lib) (ctx : Context) where
  -- What leaves the pipeline is the message that entered it: where the filtering service publishes it,
  -- the deduplication service publishes what it is given then, and the enrichment service what it is
  -- given then, the ID, the source, the time, the payload and the trace ID are unchanged, the metadata
  -- name the time of the filter and say that the message is unique, and every enrichment field that is
  -- the target of no transformation, "processed_at" apart, is as it was.
  pub pipeline_frame :
      (msg : MessageEnvelope) (x y z : Sent) (st : redis.State) (st' : w.State) (k : String)
      → (FilteringApp.handle_message lib producer topic₁ passed_at filtering ctx msg).published
        ≡ x ∷ []
      → (DedupApp.handle_message hash redis producer topic₂ dedup ctx checked_at marked_at x.msg
          st).0.published
        ≡ y ∷ []
      → (EnrichmentApp.handle_message lib w producer topic₃ stamped_at enrichment ctx y.msg
          st').0.published
        ≡ z ∷ []
      → All (λ r. All (λ t. (t.target_field == k) ≡ false) r.transformations) enrichment.rules
      → ("processed_at" == k) ≡ false
      → let m = z.msg in
        (m.id ≡ msg.id)
        × (m.source ≡ msg.source)
        × (m.timestamp ≡ msg.timestamp)
        × (m.payload ≡ msg.payload)
        × (m.metadata.trace_id ≡ msg.metadata.trace_id)
        × ((ids : List String) × (m.metadata.filters_applied
              ≡ some (record { passed_at = passed_at; rule_ids = ids })))
        × (m.metadata.deduplication ≡ some (record { is_unique = true; checked_at = marked_at }))
        × (lookup_nil k m.metadata.enrichment ≡ lookup_nil k msg.metadata.enrichment)
  pipeline_frame msg x y z st st' k first second third untouched apart =
      let (ids, at_x) = filtered lib producer topic₁ passed_at filtering ctx msg x first in
      let at_y =
        unique hash redis producer topic₂ dedup ctx checked_at marked_at x.msg st y second in
      let at_z = enriched lib w producer topic₃ stamped_at enrichment ctx y.msg st' z third in
      let (same, field) = Process.process_frame lib w enrichment ctx y.msg st' k untouched in
      let carried = (Process.process lib w enrichment ctx y.msg st').0.msg.metadata.enrichment in
      (
        ground (arith, same, at_x, at_y, at_z),
        ground (arith, same, at_x, at_y, at_z),
        ground (arith, same, at_x, at_y, at_z),
        ground (arith, same, at_x, at_y, at_z),
        ground (arith, same, at_x, at_y, at_z),
        (ids, ground (arith, same, at_x, at_y, at_z)),
        ground (arith, same, at_x, at_y, at_z),
        ground (
          arith,
          field,
          at_x,
          at_y,
          at_z,
          lookup-made k carried,
          lookup-insert "processed_at" k (time stamped_at) (made carried),
        ),
      )
