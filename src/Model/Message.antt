-- ===== src/Model/Message.antt =====
-- pkg/models/message.go and schema.go: the envelope, its checks and its payload.
use yeti.Base.{
  ℕ, String, ◌≡◌, refl, ◌≢◌, ◌↔◌, Bool, Option, none, some, List, arith, ◌==◌, eq_iff,
  if◌then◌else◌, nat_eq,
}
use yeti.Model.Value.{Value, Fields, no_fields, lookup, insert, lookup-insert}

pub record FiltersApplied : Type 0 where
  pub passed_at : ℕ
  pub rule_ids : List String

pub record DeduplicationInfo : Type 0 where
  pub is_unique : Bool
  pub checked_at : ℕ

-- A nil pointer or map is `none`.
pub record Metadata : Type 0 where
  pub trace_id : String
  pub filters_applied : Option FiltersApplied
  pub deduplication : Option DeduplicationInfo
  pub enrichment : Option Fields

pub record MessageEnvelope : Type 0 where
  pub id : String
  pub source : String
  pub timestamp : ℕ
  pub payload : Option Fields
  pub metadata : Metadata

abbrev pub empty_metadata : Metadata
empty_metadata = record {
  trace_id = "";
  filters_applied = none;
  deduplication = none;
  enrichment = none;
}

-- `Timestamp.IsZero()`
abbrev pub is_zero : ℕ → Bool
is_zero t = nat_eq t 0

pub record ValidationError : Type 0 where
  pub field_name : String
  pub message : String

-- The tests in their order; a payload is present unless its map is nil.
unfoldable pub validate_message_envelope : Option MessageEnvelope → Option ValidationError
validate_message_envelope none =
    some (record { field_name = "envelope"; message = "message envelope cannot be nil" })
validate_message_envelope (some msg) =
    if msg.id == ""
    then some (record { field_name = "id"; message = "message ID is required" })
    else if msg.source == ""
    then some (record { field_name = "source"; message = "message source is required" })
    else if is_zero msg.timestamp
    then some (record { field_name = "timestamp"; message = "message timestamp is required" })
    else elim msg.payload [
      | none ↦ some (record { field_name = "payload"; message = "message payload cannot be nil" })
      | some p ↦ none
    ]

-- Reading a nil map gives nothing.
abbrev pub lookup_nil : String → Option Fields → Option Value
lookup_nil name none = none
lookup_nil name (some d) = lookup name d

unfoldable pub get_payload_field : MessageEnvelope → String → Option Value
get_payload_field msg name = lookup_nil name msg.payload

-- The map that a nil map is replaced by.
abbrev pub made : Option Fields → Fields
made none = no_fields
made (some d) = d

unfoldable pub set_payload_field : MessageEnvelope → String → Value → MessageEnvelope
set_payload_field msg name v = record msg { payload = some (insert name v (made msg.payload)) }

-- The envelope passes exactly when it has an ID, a source, a timestamp and a payload.
pub validate_message_envelope_iff :
    (msg : MessageEnvelope)
    → (validate_message_envelope (some msg) ≡ none)
      ↔ ((msg.id ≢ "") × (msg.source ≢ "") × (msg.timestamp ≢ 0) × (msg.payload ≢ none))
unfolding validate_message_envelope
validate_message_envelope_iff msg = ground (arith, eq_iff msg.id "", eq_iff msg.source "")

-- A field that was set is read back, the other fields keep their values, and nothing else of the
-- message changes; a nil payload is replaced by a map.
pub get_payload_field-set_payload_field :
    (msg : MessageEnvelope) (name other : String) (v : Value)
    → (get_payload_field (set_payload_field msg name v) other
        ≡ (if name == other then some v else get_payload_field msg other))
      × (record (set_payload_field msg name v) { payload = msg.payload } ≡ msg)
unfolding get_payload_field set_payload_field lookup
get_payload_field-set_payload_field msg name other v =
    (ground (arith, lookup-insert name other v (made msg.payload)), refl)
