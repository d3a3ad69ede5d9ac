-- ===== src/Lib.antt =====
-- Yeti: a pipeline of services over a message broker. The filtering service drops messages by rules
-- in the CEL language, the deduplication service drops messages whose hash Redis holds, and the
-- enrichment service adds data from other systems. The management service stores the rules and
-- announces changes by events. Each service consumes a topic and publishes to the next.
--
-- The parts, and the files that model them:
--   Base           the library's names, tests, integers, and lists measured by native numbers.
--   Model          pkg/models: the envelope and Go's dynamic values (`Value`, `Fields`), the checks
--                  (`validate_message_envelope` is `ValidateMessageEnvelope`), the builder, the events.
--   Errors         pkg/errors: an error is a chain (`Err`), `fatal_in`, `retryable_in` and `as_app` are
--                  `errors.As`; the detail maps are on a heap, since copies of an error share them.
--                  Errors/Result has the pairs of a value and an error, and the contexts; Errors/Rows
--                  the rows that a query answers, and the loop over them.
--   Cel            pkg/cel/evaluator.go, over the CEL library as the parameter `CelLib`.
--   Retry          pkg/retry/retry.go: `retry_with_callback` is `RetryWithCallback`; the loop is the
--                  library github.com/cenkalti/backoff, the parameter `BackOff`, and what its
--                  documentation says is `Documented` and `Persists`. Retry/Backoff: backoff.go.
--   Broker         internal/broker/kafka.go: `consume` is the loop of `Consume` over what the reader
--                  gives, `process_message_with_retry` is `processMessageWithRetry`, `send_to_dlq` is
--                  `sendToDLQ`. It calls Retry and Errors. Broker/Kafka has the producer and the
--                  consumer but for that loop, and Broker/Factory is internal/broker/factory.go.
--   Filtering      internal/filtering and `handleMessage` of cmd/filtering-service/app.go: `filter`,
--                  `evaluate_rules`, `reload_rules`, `start_reloader`. It calls Cel.
--   Dedup          internal/deduplication and `handleMessage` of cmd/dedup-service/app.go: `process`,
--                  `compute_hash`, `build_message_data`. Redis is the parameter `Redis`.
--                  Dedup/Guarded is circuit_breaker_repository.go, which puts Breaker before it, and
--                  Dedup/CacheSize is `GetCacheSize` and the loop that measures by it.
--   Enrichment     internal/enrichment and `handleMessage` of cmd/enrichment-service/app.go:
--                  `process`, `fetch_source_data`, `apply_transformations`. The cache, JSON and the
--                  providers are the parameter `World`; Enrichment/Keys is about the keys in
--                  the cache, and Enrichment/Reload loads the rules.
--   Providers      internal/enrichment/provider: Query and Database build what MongoDB and PostgreSQL
--                  are asked, Sources asks an API and Redis, Guarded puts breakers before them, as
--                  `NewService…` of the enrichment service does, and Service is that service over
--                  them. The clients are parameters.
--   Breaker        pkg/circuitbreaker: gobreaker is the parameter `Gobreaker`, and what its
--                  documentation says is `Behaves`; the settings come from internal/config.
--                  Breaker/Wrapper has the metrics of a breaker.
--   RateLimit      pkg/ratelimit: a limiter for each client, over the parameter `Rate`;
--                  RateLimit/Headers is what the client is answered.
--   Pipeline       the handlers of the three services, one behind the other.
--   Health         pkg/health: the registry of checkers.
--   Middleware     pkg/middleware: recovery, request log and request ID around a handler.
--   Tracing        pkg/tracing: Carrier is kafka.go, the trace context in the headers of a message, and
--                  Provider is tracing.go; OpenTelemetry is a parameter.
--   Logging        pkg/logging and internal/logger: the fields that a context gives to the logs.
--   Metrics        pkg/metrics/metrics.go: Collectors has the variables, Registration the functions
--                  that register them, and Samples those that measure.
--   Migrations     pkg/migrations/mongodb.go.
--   App            pkg/bootstrap and cmd: an application is what it holds and what is open
--                  (`Handles`). Bootstrap opens and closes, Services is `Initialize` and `Shutdown` of
--                  the four services, and Started, Remains and Lifecycle are about one after the other.
--                  Run is the group of goroutines of `Run`, with the deferred `Close` of its consumer,
--                  whose steps are events in any order, over package errgroup as the parameter
--                  `Errgroup`, and
--                  Serve the command of main.go. Topics, HealthPage and Options are further parts of
--                  app.go.
--   ConfigHandler  internal/config_handler/handler.go: `handle_config_update_event`, over the
--                  reloader and the updater of a service.
--   Config         internal/config: the settings and `ValidateStatic`, and `load_config` in Loader,
--                  which is `LoadConfig` over viper as the parameter `Viper`.
--   Management     internal/management: Validator is validator.go, which requests the API admits,
--                  and Notifier is notifier.go, the events that the services handle; Audit is
--                  audit.go, which nothing calls. Store has the world of a request, with
--                  PostgreSQL, MongoDB and JSON as the parameters `Database`, `Collection` and
--                  `Codec`; Repository, Versioning and EnrichmentRepository are the files of these
--                  names; Service, FilteringRules, EnrichmentRules and DedupSettings are
--                  service.go, and Handler is handler.go. Stored says what the statements of SQL do
--                  to the table as a map (`Serves`): a text denotes a UUID, or the query fails, and a
--                  TIMESTAMP keeps a part of a time. Runs has the requests as steps on the world,
--                  and Overlap and Runs/Overlapping those that come between the parts of others;
--                  Numbering is about the numbers of versions over the table rule_versions, and
--                  Changes, History, Settings, Invariants and Http are about them. Effect follows a
--                  rule from the API to the filtering service, over one database.
--                  Unheard follows an update of the deduplication settings to the handler of its event.
--   Tests          concrete data, and each result at them.
--
-- State is passed on as values: a service's lock protects one record, which a call reads as a
-- whole, so that orders of reloads and messages are lists of events (Filtering/Reload). Numbers that
-- the program only compares are unbounded integers (Base/Int), a float64 is its bit pattern, a time
-- is a number with the zero time as 0. No function needs fuel: the loops run over lists, and the loop
-- of the retries is the library's, whose end is proved from its documentation by induction on the
-- retries that are left.
--
-- Not modelled: the routes and the decoding of HTTP, which Gin does; pkg/cel/examples.go, which
-- holds texts; `bindEnvVariables` and the flags of the commands, which only call libraries;
-- GetVersion, which nothing calls; that the services call the functions that measure, log and trace,
-- since nothing reads what these write, and what zap, OpenTelemetry and Prometheus make of it; the
-- network behind the broker. A handler is a function of the envelope: what it writes into the
-- envelope's own enrichment map is not seen by the next attempt, nor by the dead letter. Commits are
-- those asked for; their errors are only logged. Of the methods of the management service, updates
-- and deletions of filtering rules are two steps, and the others are one step on the world.
pub mod Base
pub mod Model
pub mod Errors
pub mod Cel
pub mod Retry
pub mod Broker
pub mod Filtering
pub mod Dedup
pub mod Enrichment
pub mod Providers
pub mod Breaker
pub mod RateLimit
pub mod Health
pub mod Metrics
pub mod Logging
pub mod Tracing
pub mod Middleware
pub mod Migrations
pub mod Pipeline
pub mod ConfigHandler
pub mod Config
pub mod Management
pub mod App
pub mod Tests
