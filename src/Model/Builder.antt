-- ===== src/Model/Builder.antt =====
-- pkg/models/builder.go: the builder of envelopes. `now` is what `time.Now()` returns.
use yeti.Base.{ℕ, String, Option, ◌≡◌, ◌≢◌, none, some, arith, eq_iff, if◌then◌else◌}
use yeti.Model.Value.{Fields, no_fields}
use yeti.Model.Message.{
  Metadata, MessageEnvelope, empty_metadata, is_zero, validate_message_envelope,
}

unfoldable pub new_message_envelope_builder : MessageEnvelope
new_message_envelope_builder = record {
  id = "";
  source = "";
  timestamp = 0;
  payload = some no_fields;
  metadata = empty_metadata;
}

module _ (b : MessageEnvelope) where
  unfoldable pub with_id : String → MessageEnvelope
  with_id id = record b { id = id }

  unfoldable pub with_source : String → MessageEnvelope
  with_source source = record b { source = source }

  unfoldable pub with_timestamp : ℕ → MessageEnvelope
  with_timestamp timestamp = record b { timestamp = timestamp }

  unfoldable pub with_payload : Option Fields → MessageEnvelope
  with_payload payload = record b { payload = payload }

  unfoldable pub with_metadata : Metadata → MessageEnvelope
  with_metadata metadata = record b { metadata = metadata }

  unfoldable pub with_trace_id : String → MessageEnvelope
  with_trace_id id = record b { metadata = record (b.metadata) { trace_id = id } }

  unfoldable pub build : ℕ → MessageEnvelope
  build now = if is_zero b.timestamp then record b { timestamp = now } else b

-- A builder that was given an ID and a source builds a valid envelope, whatever the timestamp given
-- and with no payload given, as long as the clock does not show the zero time.
pub build_valid :
    (id source : String) (t now : ℕ)
    → id ≢ ""
    → source ≢ ""
    → now ≢ 0
    → validate_message_envelope (
        some (
          build
            (with_timestamp (with_source (with_id new_message_envelope_builder id) source) t)
            now))
      ≡ none
unfolding validate_message_envelope new_message_envelope_builder with_id with_source with_timestamp
    build
build_valid id source t now hi hs hn = ground (arith, eq_iff id "", eq_iff source "")
