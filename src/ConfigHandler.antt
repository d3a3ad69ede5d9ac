-- ===== src/ConfigHandler.antt =====
-- internal/config_handler/handler.go: what a service does with the events of the management
-- service. The reloader and the updater are the services' own methods, over their state.
pub mod Guards
use yeti.Base.{
  ℕ, String, Bool, true, false, Option, none, some, List, [], ◌∷◌, ◌==◌, if◌then◌else◌, not,
}
use yeti.Base.Lists.{is_empty}
use yeti.Model.Value.{Value, Values, no_values, value, text, array, Fields, as_text}
use yeti.Model.Message.{MessageEnvelope, lookup_nil}
use yeti.Errors.Chain.{Err}

-- `json.Marshal` of the payload and `json.Unmarshal` into a `ConfigUpdateEvent`: the error, if any.
-- Nothing but the logs reads the event.
abbrev pub Codec : Type 0
Codec = Option Fields → Option Err

-- `reloader` and `updater` are `none` for nil.
pub record Handler (S : Type 0) : Type 0 where
  pub expected_event_type : String
  pub expected_service_type : String
  pub reloader : Option (S → S × Option Err)
  pub updater : Option (List String → S → S × Option Err)

-- A text field of an event, in the enrichment metadata or else in the payload.
unfoldable pub event_field : String → MessageEnvelope → Option String
event_field name envelope = elim (as_text (lookup_nil name envelope.metadata.enrichment)) [
  | some t ↦ some t
  | none ↦ as_text (lookup_nil name envelope.payload)
]

-- `fieldsStr`: an entry that is no text becomes "".
unfoldable pub field_names : Values → List String
field_names no_values = []
field_names (value (text s) l) = s ∷ field_names l
field_names (value v l) = "" ∷ field_names l

-- The assertion `envelope.Payload["fields_to_hash"].([]interface{})`, and the loop over the list.
abbrev listed_fields : Option Value → List String
unfolding field_names
listed_fields (some (array l)) = field_names l
listed_fields v = []

module _ (S : Type 0) (decode : Codec) (h : Handler S) where
  abbrev update : List String → S → S × Option Err
  update fields s = elim h.updater [
    | none ↦ (s, none)
    | some f ↦ if is_empty fields then (s, none) else f fields s
  ]

  abbrev update_after : MessageEnvelope → S × Option Err → S × Option Err
  update_after envelope (s, some e) = (s, some e)
  update_after envelope (s, none) =
      update (listed_fields (lookup_nil "fields_to_hash" envelope.payload)) s

  abbrev apply_event : MessageEnvelope → S → S × Option Err
  apply_event envelope s = elim (decode envelope.payload) [
    | some e ↦ (s, some e)
    | none ↦ elim h.reloader [
      | none ↦ update_after envelope (s, none)
      | some r ↦ update_after envelope (r s)
    ]
  ]

  unfoldable pub handle_config_update_event : MessageEnvelope → S → S × Option Err
  unfolding listed_fields
  handle_config_update_event envelope s = elim (event_field "event_type" envelope) [
    | none ↦ (s, none)
    | some event_type ↦
        if not (event_type == h.expected_event_type)
        then (s, none)
        else elim (event_field "service_type" envelope) [
          | none ↦ (s, none)
          | some service_type ↦
              if not (service_type == h.expected_service_type)
              then (s, none)
              else apply_event envelope s
        ]
  ]
