-- ===== src/Broker/Producer.antt =====
-- The `Producer` of internal/broker/types.go, as the handlers of the services use it.
use yeti.Base.{String, Option, none, some, List, [], ◌∷◌}
use yeti.Model.Message.{MessageEnvelope}
use yeti.Errors.Chain.{Err}

pub record Sent : Type 0 where
  pub topic : String
  pub msg : MessageEnvelope

-- What `Publish` answers for a message: the broker's part of the model is this parameter.
abbrev pub Producer : Type 0
Producer = Sent → Option Err

-- What a handler leaves behind: the messages that were published, and the error that it returns.
pub record Outcome : Type 0 where
  pub published : List Sent
  pub error : Option Err

-- `Publish`, with what becomes of its error.
abbrev pub publish : Producer → (Err → Err) → Sent → Outcome
publish p on_error m = elim (p m) [
  | none ↦ record { published = m ∷ []; error = none }
  | some e ↦ record { published = []; error = some (on_error e) }
]

abbrev pub quiet : Outcome
quiet = record { published = []; error = none }
