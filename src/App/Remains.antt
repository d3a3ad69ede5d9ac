-- ===== src/App/Remains.antt =====
-- What is open after the shutdown of an application that was started.
use yeti.Base.{◌≡◌, refl, Bool-cases, Bool, true, false, not, ◌==◌, ◌&&◌, inl, inr}
use yeti.App.Names.{Service, filtering, dedup, enrichment, management}
use yeti.Config.Types.{Config}
use yeti.Tracing.Provider.{Sdk}
use yeti.Broker.Factory.{new_producer}
use yeti.App.Bootstrap.{
  Handles, nothing, App, Answers, shutdown_broker, shutdown_databases, shutdown,
}
use yeti.App.Services.{init_events, shutdown_server, shutdown_tracer, shutdown_service}
use yeti.App.Started.{with_tracer, with_server, connected, started}

-- What `Shutdown` does not close: the tracer of the enrichment service, and the producer of the
-- management service, which has one where the broker is kafka and a topic for events is given.
abbrev pub left_open : Config → Service → Handles
left_open cfg filtering = nothing
left_open cfg dedup = nothing
left_open cfg enrichment = record nothing { tracer = true }
left_open cfg management = record nothing {
  events = cfg.broker.type_name == "kafka" && not (cfg.broker.kafka.config_update_topic == "");
}

module _ (sdk : Sdk) (cfg : Config) (answers : Answers) where
  -- What is open after the shutdown of an application.
  abbrev pub remains : Service → App → Handles
  remains service a = (shutdown_service sdk cfg answers service a).1.opened

  pub remains-filtering :
      (postgres : Bool) → remains filtering (started (connected false postgres false)) ≡ nothing
  unfolding shutdown_service shutdown_server shutdown_tracer shutdown shutdown_broker
      shutdown_databases
  remains-filtering true = refl
  remains-filtering false = refl

  pub remains-enrichment :
      (mongo postgres : Bool)
      → remains enrichment (started (connected true postgres mongo))
        ≡ record nothing { tracer = true }
  unfolding shutdown_service shutdown_server shutdown_tracer shutdown shutdown_broker
      shutdown_databases
  remains-enrichment true true = refl
  remains-enrichment true false = refl
  remains-enrichment false true = refl
  remains-enrichment false false = refl

  abbrev pub has_events : Bool
  has_events = cfg.broker.type_name == "kafka" && not (cfg.broker.kafka.config_update_topic == "")

  abbrev pub with_events : App → App
  with_events a = record a { opened = record a.opened { events = has_events } }

  pub init_events_lem :
      (postgres mongo : Bool)
      → init_events sdk cfg answers (connected false postgres mongo)
        ≡ with_events (connected false postgres mongo)
  unfolding init_events new_producer
  init_events_lem postgres mongo = elim (Bool-cases (cfg.broker.type_name == "kafka")) [
    | inr other ↦ rw (other, init_events)
    | inl kafka ↦ elim (Bool-cases (cfg.broker.kafka.config_update_topic == "")) [
      | inl untold ↦ rw (kafka, untold, init_events)
      | inr topic ↦ rw (kafka, topic, init_events)
    ]
  ]

  pub remains-management :
      (postgres mongo : Bool)
      → remains management
          (with_tracer (with_server (with_events (connected false postgres mongo))))
        ≡ record nothing { events = has_events }
  unfolding shutdown_service shutdown_server shutdown_tracer shutdown_databases
  remains-management true true = refl
  remains-management true false = refl
  remains-management false true = refl
  remains-management false false = refl
