-- ===== src/Tests/Pipeline.antt =====
-- A message that passes the three services: there are no filtering rules, and one rule that enriches it.
use yeti.Base.{◌≡◌, refl, String, true, none, some, List, [], ◌∷◌}
use yeti.Model.Value.{null, lookup}
use yeti.Model.Message.{lookup_nil, get_payload_field}
use yeti.Broker.Producer.{Producer, Sent}
use yeti.Cel.{filter_variables}
use yeti.Base.Int
use yeti.Filtering
use yeti.Filtering.Handle as FilteringApp
use yeti.Dedup.Service
use yeti.Dedup.Hasher
use yeti.Dedup.Handle as DedupApp
use yeti.Enrichment.Types
use yeti.Enrichment.Process
use yeti.Enrichment.Fetch
use yeti.Enrichment.Handle as EnrichmentApp
use yeti.Pipeline.{pipeline_frame}
use yeti.Tests.Fixtures.{words, live, order}
use yeti.Tests.Dedup as Deduplication
use yeti.Tests.Enrichment as Enriching

abbrev works : Producer
works m = none

abbrev filtering : Filtering.Service words
filtering = record {
  rules = [];
  filtering_config = record { on_error = ""; interval_seconds = Int.pos 5 };
  evaluator = filter_variables;
}

abbrev enrichment : Types.Service words
enrichment = record { rules = Enriching.rule "skip_rule" null "" ∷ []; evaluator = none }

abbrev passed : Sent
passed = record { topic = "dedup_events"; msg = FilteringApp.with_filters 1 [] order }

abbrev unique : Sent
unique = record { topic = "enrich"; msg = DedupApp.marked_unique 3 passed.msg }

abbrev enriched : Sent
enriched = record {
  topic = "out";
  msg =
      EnrichmentApp.stamped 4
        (Process.process words Enriching.world enrichment live unique.msg (none, 0)).0.msg;
}

pipeline_frame_example :
    let m = enriched.msg in
    (m.id ≡ order.id)
    × (m.source ≡ order.source)
    × (m.timestamp ≡ order.timestamp)
    × (m.payload ≡ order.payload)
    × (m.metadata.trace_id ≡ order.metadata.trace_id)
    × ((ids : List String) × (m.metadata.filters_applied
          ≡ some (record { passed_at = 1; rule_ids = ids })))
    × (m.metadata.deduplication ≡ some (record { is_unique = true; checked_at = 3 }))
    × (lookup_nil "zip" m.metadata.enrichment ≡ lookup_nil "zip" order.metadata.enrichment)
unfolding FilteringApp.handle_message Filtering.filter DedupApp.handle_message Service.process
    Hasher.compute_hash Service.repo_set_nx Deduplication.set_nx EnrichmentApp.handle_message
    Process.process Process.process_rule get_payload_field lookup Fetch.fetch_source_data
    Enriching.get
pipeline_frame_example =
    pipeline_frame words Deduplication.marks Deduplication.memory Enriching.world works "" "enrich"
      "out" 1 2 3 4 filtering Deduplication.service enrichment live order passed unique enriched []
      (none, 0) "zip" refl refl refl ((refl, tt), tt) refl
