-- ===== src/ConfigHandler/Guards.antt =====
-- Which events change a service, and how.
use yeti.Base.{
  ◌⊎◌, inl, inr, Option-cases, String, ◌≡◌, ◌≢◌, Option, none, some, List, arith, eq_iff,
  if◌then◌else◌,
}
use yeti.Base.Lists.{is_empty}
use yeti.Model.Value.{Values, array}
use yeti.Model.Message.{MessageEnvelope, lookup_nil}
use yeti.Errors.Chain.{Err}
use yeti.ConfigHandler.{Codec, Handler, event_field, field_names, handle_config_update_event}

module _ (S : Type 0) (decode : Codec) (h : Handler S) where
  -- An event of another type or for another service, or one that does not name both, changes nothing
  -- and is no error, whatever its payload is.
  pub handle_config_update_event_other :
      (envelope : MessageEnvelope) (s : S)
      → (event_field "event_type" envelope ≢ some h.expected_event_type)
        ⊎ (event_field "service_type" envelope ≢ some h.expected_service_type)
      → handle_config_update_event S decode h envelope s ≡ (s, none)
  unfolding handle_config_update_event
  handle_config_update_event_other envelope s other =
      elim (Option-cases (event_field "event_type" envelope)) [
        | inl missing ↦ ground arith
        | inr (t, is_t) ↦ elim (Option-cases (event_field "service_type" envelope)) [
          | inl missing ↦ ground arith
          | inr (u, is_u) ↦
              ground (arith, eq_iff t h.expected_event_type, eq_iff u h.expected_service_type)
        ]
      ]

  -- An event for this service that lists fields reloads first, where there are a reloader and an
  -- updater. A payload that is no event, or a failed reload, ends the handling with its error and
  -- without an update. Otherwise the updater gets the listed fields, unless none are listed.
  pub handle_config_update_event_own :
      (envelope : MessageEnvelope) (s : S) (fields : Values) (r : S → S × Option Err)
      (u : List String → S → S × Option Err)
      → event_field "event_type" envelope ≡ some h.expected_event_type
      → event_field "service_type" envelope ≡ some h.expected_service_type
      → h.reloader ≡ some r
      → h.updater ≡ some u
      → lookup_nil "fields_to_hash" envelope.payload ≡ some (array fields)
      → handle_config_update_event S decode h envelope s ≡ elim (decode envelope.payload) [
        | some e ↦ (s, some e)
        | none ↦ elim (r s).1 [
          | some e ↦ r s
          | none ↦
              if is_empty (field_names fields)
              then ((r s).0, none)
              else u (field_names fields) (r s).0
        ]
      ]
  unfolding handle_config_update_event
  handle_config_update_event_own envelope s fields r u et st hr hu hf = ground (
    arith,
    eq_iff h.expected_event_type h.expected_event_type,
    eq_iff h.expected_service_type h.expected_service_type,
  )
