-- ===== src/App/Lifecycle.antt =====
-- What a service has open after it was started and shut down.
use yeti.Base.{
  ◌≡◌, sym, ap, ◌∙◌, true, false, Option, none, arith, Bool-cases, Option-cases, inl, inr,
}
use mathlib.Core.Path.{subst}
use yeti.App.Names.{Service, filtering, dedup, enrichment, management}
use yeti.Errors.Chain.{Err}
use yeti.Config.Types.{Config}
use yeti.Tracing.Provider.{Sdk}
use yeti.App.Bootstrap.{
  nothing, App, Act, proceed, done, Answers, step-none, shutdown_broker, shutdown_databases,
  shutdown,
}
use yeti.App.Services.{
  store_redis, store_postgres, store_mongo, init_http_server, init_tracing, ignored,
  init_filtering_service, init_enrichment_service, serve_management, trace_management,
  initialize_filtering, initialize_dedup, initialize_enrichment, init_events, init_router,
  initialize_management, initialize, shutdown_server, shutdown_tracer, shutdown_service, start_rest,
}
use yeti.App.Started.{
  new_app, with_tracer, with_server, started, second, init_tracing_ok, start_rest_ok,
  store_redis_ok, store_postgres_ok, store_postgres_tried, store_mongo_ok, store_mongo_tried,
  service_ok,
}
use yeti.App.Remains.{
  left_open, remains, remains-filtering, remains-enrichment, has_events, init_events_lem,
  remains-management,
}

module _ (sdk : Sdk) (cfg : Config) (answers : Answers) where
  module _ (b : App) where
    closed_filtering :
        (service_error : Option Err)
        → initialize_filtering sdk cfg answers service_error new_app ≡ (none, b)
        → remains sdk cfg answers filtering b ≡ nothing
    unfolding initialize_filtering
    closed_filtering service_error e =
        let (a, postgres, rest) =
          step-none "failed to initialize database" (store_postgres cfg answers) _ new_app b e in
        let (c, service, rest') =
          step-none "failed to initialize service"
            (init_filtering_service sdk cfg answers service_error)
            (start_rest sdk cfg answers filtering) a b rest in
        let (given, p) = store_postgres_ok sdk cfg answers false false a postgres in
        ap (remains sdk cfg answers filtering) (
          start_rest_ok sdk cfg answers filtering c b rest'
          ∙ ap started (sym (service_ok sdk cfg answers service_error a c service) ∙ p))
        ∙ remains-filtering sdk cfg answers given

    closed_dedup :
        initialize_dedup sdk cfg answers new_app ≡ (none, b)
        → remains sdk cfg answers dedup b ≡ nothing
    unfolding initialize_dedup shutdown_service shutdown_server shutdown_tracer shutdown
        shutdown_broker shutdown_databases
    closed_dedup e =
        let (a, redis, rest) =
          step-none "failed to initialize Redis" (store_redis answers) _ new_app b e in
        ap (remains sdk cfg answers dedup) (
          start_rest_ok sdk cfg answers dedup a b rest
          ∙ ap started (store_redis_ok sdk cfg answers a redis))

    service_made :
        (a : App) (next : Act)
        → proceed (init_enrichment_service sdk cfg answers a) next ≡ (none, b)
        → next a ≡ (none, b)
    unfolding init_enrichment_service
    service_made a next e = elim (Bool-cases a.held.mongo) [
      | inl connected ↦ ground arith
      | inr missing ↦ elim (Option-cases answers.nil_database) [
        | inl returns ↦ ground arith
        | inr (x, panics) ↦ absurd (ground arith)
      ]
    ]

    closed_enrichment :
        initialize_enrichment sdk cfg answers new_app ≡ (none, b)
        → remains sdk cfg answers enrichment b ≡ record nothing { tracer = true }
    unfolding initialize_enrichment
    closed_enrichment e =
        let (a, redis, rest) =
          step-none "failed to initialize Redis" (store_redis answers) _ new_app b e in
        let (c, mongo, rest') =
          step-none "failed to initialize MongoDB" (store_mongo cfg answers) _ a b rest in
        let p = store_redis_ok sdk cfg answers a redis in
        let (given, q) =
          store_mongo_ok sdk cfg answers true false c
            (subst (λ x. store_mongo cfg answers x ≡ (none, c)) p mongo) in
        let (postgres, r) = store_postgres_tried sdk cfg answers true given in
        ap (remains sdk cfg answers enrichment) (
          start_rest_ok sdk cfg answers enrichment (ignored (store_postgres cfg answers c)) b
            (service_made _ (start_rest sdk cfg answers enrichment) rest')
          ∙ ap started (ap (λ x. ignored (store_postgres cfg answers x)) q ∙ r))
        ∙ remains-enrichment sdk cfg answers given postgres

    closed_management :
        initialize_management sdk cfg answers new_app ≡ (none, b)
        → remains sdk cfg answers management b
          ≡ record nothing { events = has_events sdk cfg answers }
    unfolding initialize_management init_router init_http_server
    closed_management e =
        let (a, postgres, rest) =
          step-none "failed to initialize database" (store_postgres cfg answers) _ new_app b e in
        let (c, router, rest') =
          step-none "failed to initialize router" (init_router sdk cfg answers)
            (serve_management sdk cfg answers) a b rest in
        let (d, served, rest'') =
          step-none "failed to initialize server" init_http_server
            (trace_management sdk cfg answers) c b rest' in
        let (x, traced, last) =
          step-none "failed to initialize tracing" (init_tracing sdk cfg answers management) done d
            b rest'' in
        let (given, p) = store_postgres_ok sdk cfg answers false false a postgres in
        let (mongo, q) = store_mongo_tried sdk cfg answers false given in
        let routed =
          sym (second router)
          ∙ ap (λ y. init_events sdk cfg answers (ignored (store_mongo cfg answers y))) p
          ∙ ap (init_events sdk cfg answers) q
          ∙ init_events_lem sdk cfg answers given mongo in
        ap (remains sdk cfg answers management) (
          sym (second last)
          ∙ init_tracing_ok sdk cfg answers management d x traced
          ∙ ap with_tracer (sym (second served) ∙ ap with_server routed))
        ∙ remains-management sdk cfg answers given mongo

  -- A service that was started and is shut down has closed everything that it opened, whatever the
  -- calls that close it answer, but for the tracer of the enrichment service and for the producer of
  -- events of the management service, which it has where the broker is kafka and a topic for them is
  -- configured.
  pub initialize-shutdown_service :
      (service : Service) (service_error : Option Err) (b : App)
      → initialize sdk cfg answers service service_error new_app ≡ (none, b)
      → (shutdown_service sdk cfg answers service b).1.opened ≡ left_open cfg service
  unfolding initialize
  initialize-shutdown_service filtering service_error b e = closed_filtering b service_error e
  initialize-shutdown_service dedup service_error b e = closed_dedup b e
  initialize-shutdown_service enrichment service_error b e = closed_enrichment b e
  initialize-shutdown_service management service_error b e = closed_management b e
