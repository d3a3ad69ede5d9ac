-- ===== src/App/Services.antt =====
-- cmd/*/app.go: `Initialize` and `Shutdown` of the four services. The registration of what is measured
-- is in Metrics, and the HTTP server is made without an error.
use yeti.Base.{
  String, Bool, true, false, not, Option, none, some, List, ◌++◌, ◌==◌, if◌then◌else◌, ◌&&◌,
}
use yeti.App.Names.{Service, name, filtering, dedup, enrichment, management}
use yeti.Errors.Chain.{Err, wrap}
use yeti.Errors.Result.{Result, ok, err}
use yeti.Config.Types.{Config}
use yeti.Tracing.Provider.{Sdk, init}
use yeti.Broker.Factory.{new_producer}
use yeti.Broker.Kafka.{new_kafka_producer}
use yeti.App.Bootstrap.{
  Handles, App, Answers, Act, step, proceed, done, init_redis, init_postgresql, init_mongodb,
  init_broker, close_error, still_open, shutdown_databases, shutdown,
}

-- The client of a connection is stored where there was no error.
abbrev pub stored_redis : Handles → Result Bool × Handles → Option Err × App
stored_redis held (ok given, opened) =
    (none, record { held = record held { redis = given }; opened = opened })
stored_redis held (err e, opened) = (some e, record { held = held; opened = opened })

abbrev pub stored_postgres : Handles → Result Bool × Handles → Option Err × App
stored_postgres held (ok given, opened) =
    (none, record { held = record held { postgres = given }; opened = opened })
stored_postgres held (err e, opened) = (some e, record { held = held; opened = opened })

abbrev pub stored_mongo : Handles → Result Bool × Handles → Option Err × App
stored_mongo held (ok given, opened) =
    (none, record { held = record held { mongo = given }; opened = opened })
stored_mongo held (err e, opened) = (some e, record { held = held; opened = opened })

unfoldable pub store_redis : Answers → Act
store_redis answers a = stored_redis a.held (init_redis answers a.opened)

unfoldable pub store_postgres : Config → Answers → Act
store_postgres cfg answers a = stored_postgres a.held (init_postgresql cfg answers a.opened)

unfoldable pub store_mongo : Config → Answers → Act
store_mongo cfg answers a = stored_mongo a.held (init_mongodb cfg answers a.opened)

-- An error that is only logged.
abbrev pub ignored : Option Err × App → App
ignored (e, a) = a

unfoldable pub init_http_server : Act
init_http_server a = (
  none,
  record { held = record a.held { server = true }; opened = record a.opened { server = true } },
)

module _ (sdk : Sdk) (cfg : Config) (answers : Answers) where
  unfoldable pub init_tracing : Service → Act
  init_tracing service a = elim (init sdk cfg.tracing (name service)) [
    | ok t ↦ (
      none,
      record { held = record a.held { tracer = true }; opened = record a.opened { tracer = true } },
    )
    | err e ↦ (some e, a)
  ]

  abbrev pub start_rest : Service → Act
  start_rest service = step "failed to initialize broker" (init_broker cfg) (
      step "failed to initialize tracing" (init_tracing service)
        (step "failed to initialize HTTP server" init_http_server done))

  -- `initService` of the filtering service, where `NewService` answers the given error. An error of the
  -- first load of the rules is only logged, but without a database that load panics. A panic is written as
  -- an error: it ends the start too.
  abbrev pub init_filtering_service : Option Err → Act
  init_filtering_service none a = (if a.held.postgres then none else answers.nil_query, a)
  init_filtering_service (some e) a = (some (wrap "failed to create filtering service" e), a)

  unfoldable pub initialize_filtering : Option Err → Act
  initialize_filtering service_error =
      step "failed to initialize database" (store_postgres cfg answers) (
        step "failed to initialize service" (init_filtering_service service_error)
          (start_rest filtering))

  unfoldable pub initialize_dedup : Act
  initialize_dedup = step "failed to initialize Redis" (store_redis answers) (start_rest dedup)

  -- `initService` of the enrichment service, with a panic in the same way.
  unfoldable pub init_enrichment_service : Act
  init_enrichment_service a = (if a.held.mongo then none else answers.nil_database, a)

  -- PostgreSQL is not needed: its error is only logged.
  unfoldable pub initialize_enrichment : Act
  initialize_enrichment = step "failed to initialize Redis" (store_redis answers) (
      step "failed to initialize MongoDB" (store_mongo cfg answers) (λ a.
        proceed (init_enrichment_service (ignored (store_postgres cfg answers a)))
          (start_rest enrichment)))

  -- The producer of the configuration's events, which no field of the application holds.
  unfoldable pub init_events : App → App
  init_events a =
      if cfg.broker.type_name == "kafka" && not (cfg.broker.kafka.config_update_topic == "")
      then elim (new_producer new_kafka_producer cfg.broker) [
        | err e ↦ a
        | ok producer ↦ record a { opened = record a.opened { events = true } }
      ]
      else a

  -- `initRouter` and `initServer`: MongoDB's error is only logged.
  unfoldable pub init_router : Act
  init_router a = (none, init_events (ignored (store_mongo cfg answers a)))

  abbrev pub trace_management : Act
  trace_management = step "failed to initialize tracing" (init_tracing management) done

  abbrev pub serve_management : Act
  serve_management = step "failed to initialize server" init_http_server trace_management

  unfoldable pub initialize_management : Act
  initialize_management =
      step "failed to initialize database" (store_postgres cfg answers)
        (step "failed to initialize router" init_router serve_management)

  unfoldable pub initialize : Service → Option Err → Act
  initialize filtering service_error = initialize_filtering service_error
  initialize dedup service_error = initialize_dedup
  initialize enrichment service_error = initialize_enrichment
  initialize management service_error = initialize_management

  unfoldable pub shutdown_server : String → App → List Err × App
  shutdown_server prefix a = (
    close_error a.held.server prefix answers.shutdown_server,
    record a { opened = record a.opened { server = still_open a.held.server a.opened.server } },
  )

  unfoldable pub shutdown_tracer : App → List Err × App
  shutdown_tracer a = (
    close_error a.held.tracer "tracer provider shutdown error" answers.shutdown_tracer,
    record a { opened = record a.opened { tracer = still_open a.held.tracer a.opened.tracer } },
  )

  -- One after the other, with the errors of both.
  abbrev pub both : (App → List Err × App) → (App → List Err × App) → App → List Err × App
  both f g a = let (errs, b) = f a in let (more, c) = g b in (errs ++ more, c)

  -- `Shutdown`: the server, the tracer and the databases that each service passes.
  unfoldable pub shutdown_service : Service → App → List Err × App
  shutdown_service filtering = shutdown answers (
      both (shutdown_server "HTTP server shutdown error")
        (both shutdown_tracer (λ a. shutdown_databases answers false a.held.postgres false a)))
  shutdown_service dedup = shutdown answers (
      both (shutdown_server "HTTP server shutdown error")
        (both shutdown_tracer (λ a. shutdown_databases answers a.held.redis false false a)))
  shutdown_service enrichment = shutdown answers (
      both (shutdown_server "HTTP server shutdown error")
        (λ a. shutdown_databases answers a.held.redis a.held.postgres a.held.mongo a))
  shutdown_service management =
      both (shutdown_server "server shutdown error") (
        both shutdown_tracer (λ a. shutdown_databases answers false a.held.postgres a.held.mongo a))
