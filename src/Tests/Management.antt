-- ===== src/Tests/Management.antt =====
-- The events of the management service, with a JSON whose bytes are the event.
use yeti.Base.{ℕ, suc, Option, none, some}
use yeti.Model.Value.{text, Fields, no_fields, field}
use yeti.Model.Event.{ConfigUpdateEvent}
use yeti.Errors.Chain.{Err}
use yeti.Errors.Result.{ok}
use yeti.Broker.Producer.{Producer}
use yeti.Management.Notifier.{Json, ConfigEventProducer}

abbrev pub written : ConfigUpdateEvent → Fields
written e =
    field "event_type" (text e.event_type)
      (field "service_type" (text e.service_type) (field "action" (text e.action) no_fields))

abbrev pub json : Json
json = record { Bytes = ConfigUpdateEvent; marshal = ok; unmarshal = λ e. ok (written e) }

abbrev pub works : Producer
works m = none

abbrev pub notifier : ConfigEventProducer
notifier = record { producer = some works; topic = "config" }

abbrev pub reload : ℕ → ℕ × Option Err
reload n = (suc n, none)

abbrev pub decodes : Option Fields → Option Err
decodes d = none
