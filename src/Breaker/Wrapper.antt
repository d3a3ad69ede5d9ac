-- ===== src/Breaker/Wrapper.antt =====
-- pkg/circuitbreaker/wrapper.go: the settings that `NewWrapper` hands to gobreaker, and what it measures.
use yeti.Base.{ℕ, String, Bool, Option, none, some, List, [], ◌∷◌, if◌then◌else◌}
use yeti.Base.Int.{pos, ℤ}
use yeti.Breaker.{Config, Counts, Phase, closed, half_open, open_phase}
use yeti.Metrics.Collectors.{
  circuit_breaker_state, circuit_breaker_requests, circuit_breaker_failures,
}
use yeti.Metrics.Samples.{Sample, inc, set_to}

unfoldable pub state_value : Phase → ℤ
state_value closed = pos 0
state_value half_open = pos 1
state_value open_phase = pos 2

unfoldable pub update_circuit_breaker_metrics : String → Phase → Sample
update_circuit_breaker_metrics name state = record {
  collector = circuit_breaker_state;
  labels = name ∷ [];
  update = set_to (state_value state);
}

-- `gobreaker.Settings`; a change of state is measured first, and then handed on to the callback of the
-- configuration, if there is one.
pub record Settings (A : Type 0) : Type 0 where
  pub name : String
  pub max_requests : ℕ
  pub interval : ℤ
  pub timeout : ℤ
  pub ready_to_trip : Counts → Bool
  pub on_state_change : String → Phase → Phase → Sample × Option A

abbrev called :
    {A : Type 0} → Option (String → Phase → Phase → A) → String → Phase → Phase → Option A
called none name from to = none
called (some f) name from to = some (f name from to)

-- The settings, and what is measured for the state of the new breaker.
unfoldable pub new_wrapper :
    {A : Type 0} → Config → Option (String → Phase → Phase → A) → Phase → Settings A × Sample
new_wrapper cfg on_state_change state = (
  record {
    name = cfg.name;
    max_requests = cfg.max_requests;
    interval = cfg.interval;
    timeout = cfg.timeout;
    ready_to_trip = cfg.ready_to_trip;
    on_state_change = λ name from to.
        (update_circuit_breaker_metrics name to, called on_state_change name from to);
  },
  update_circuit_breaker_metrics cfg.name state,
)

-- `RecordRequest`, for the name of the breaker and the text of its state.
unfoldable pub record_request : String → String → Bool → List Sample
record_request name state success =
    record { collector = circuit_breaker_requests; labels = name ∷ state ∷ []; update = inc }
    ∷ (if success
        then []
        else record { collector = circuit_breaker_failures; labels = name ∷ []; update = inc } ∷ [])
