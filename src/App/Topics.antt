-- ===== src/App/Topics.antt =====
-- cmd/*/app.go: the topics that the services read and write, from which the stages are connected.
use yeti.Base.{String, ◌≡◌, ◌↔◌, ◌⊎◌, arith, ◌==◌, eq_iff, if◌then◌else◌}
use yeti.Config.Types.{KafkaConfig}
use yeti.App.Names.{Reader, filtering_reader, dedup_reader, enrichment_reader}

abbrev or_default : String → String → String
or_default configured default = if configured == "" then default else configured

-- The filtering service has no default for the topic that it reads.
unfoldable pub input_topic : Reader → KafkaConfig → String
input_topic filtering_reader cfg = cfg.input_topic
input_topic dedup_reader cfg = or_default cfg.input_topic "filtered_events"
input_topic enrichment_reader cfg = or_default cfg.input_topic "deduplicated_events"

unfoldable pub output_topic : Reader → KafkaConfig → String
output_topic filtering_reader cfg = or_default cfg.output_topic "dedup_events"
output_topic dedup_reader cfg = or_default cfg.output_topic "deduplicated_events"
output_topic enrichment_reader cfg = or_default cfg.output_topic "processed_events"

-- Where the filtering service has no topic configured to write to, the deduplication service reads
-- what it writes only where it is configured to read "dedup_events": not by default. Where the
-- deduplication service has none configured, the enrichment service reads what it writes by default,
-- or where it is configured to read "deduplicated_events".
pub output_topic-input_topic :
    (f d e : KafkaConfig)
    → f.output_topic ≡ ""
    → d.output_topic ≡ ""
    → ((output_topic filtering_reader f ≡ input_topic dedup_reader d)
        ↔ (d.input_topic ≡ "dedup_events"))
      × ((output_topic dedup_reader d ≡ input_topic enrichment_reader e)
          ↔ ((e.input_topic ≡ "") ⊎ (e.input_topic ≡ "deduplicated_events")))
unfolding output_topic input_topic
output_topic-input_topic f d e h h' = ground (
  arith,
  eq_iff f.output_topic "",
  eq_iff d.output_topic "",
  eq_iff d.input_topic "",
  eq_iff d.input_topic "dedup_events",
  eq_iff e.input_topic "",
  eq_iff e.input_topic "deduplicated_events",
  eq_iff "dedup_events" "filtered_events",
  eq_iff "dedup_events" "",
)
