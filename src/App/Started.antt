-- ===== src/App/Started.antt =====
-- What the functions of the start leave when they succeed.
use yeti.Base.{
  ◌≡◌, sym, ap, ◌∙◌, Bool-cases, Option-cases, ◌⊎◌, Bool, true, false, Option, none, some, arith,
  ◌==◌, inl, inr,
}
use yeti.App.Names.{Service, name}
use yeti.Errors.Chain.{Err, wrap}
use yeti.Errors.Result.{ok, err, Result-cases}
use yeti.Config.Types.{Config}
use yeti.Tracing.Provider.{Sdk, init}
use yeti.Broker.Factory.{new_producer, new_consumer}
use yeti.App.Bootstrap.{
  Handles, nothing, App, step-none, Answers, step-none, init_redis, init_postgresql, init_mongodb,
  init_broker,
}
use yeti.App.Services.{
  store_redis, store_postgres, store_mongo, init_http_server, init_tracing, ignored,
  init_filtering_service, start_rest,
}

abbrev pub new_app : App
new_app = record { held = nothing; opened = nothing }

-- An application that holds one thing more.
abbrev pub with_broker : App → App
with_broker a = record {
  held = record a.held { producer = true; consumer = true };
  opened = record a.opened { producer = true; consumer = true };
}

abbrev pub with_tracer : App → App
with_tracer a = record {
  held = record a.held { tracer = true };
  opened = record a.opened { tracer = true };
}

abbrev pub with_server : App → App
with_server a = record {
  held = record a.held { server = true };
  opened = record a.opened { server = true };
}

-- An application with some of the three clients, which are open, and nothing else.
abbrev pub connected : Bool → Bool → Bool → App
connected redis postgres mongo =
    let h = record nothing { redis = redis; postgres = postgres; mongo = mongo } in
    record { held = h; opened = h }

abbrev pub started : App → App
started a = with_server (with_tracer (with_broker a))

abbrev pub second : {A B : Type 0} {x y : A} {a b : B} → ◌≡◌ {A = A × B} (x, a) (y, b) → a ≡ b
second e = ap (λ r. r.1) e

module _ (sdk : Sdk) (cfg : Config) (answers : Answers) where
  pub init_broker_ok : (a b : App) → init_broker cfg a ≡ (none, b) → b ≡ with_broker a
  unfolding init_broker new_producer new_consumer
  init_broker_ok a b e = elim (Bool-cases (cfg.broker.type_name == "kafka")) [
    | inl kafka ↦
        let made : init_broker cfg a ≡ (none, with_broker a) =
          rw (kafka, init_broker, new_producer) (rw (kafka, new_consumer)) in
        second (sym e ∙ made)
    | inr other ↦ absurd (ground arith)
  ]

  pub init_tracing_ok :
      (service : Service) (a b : App)
      → init_tracing sdk cfg answers service a ≡ (none, b)
      → b ≡ with_tracer a
  unfolding init_tracing
  init_tracing_ok service a b e = elim (Result-cases (init sdk cfg.tracing (name service))) [
    | inl (t, made) ↦
        let traced : init_tracing sdk cfg answers service a ≡ (none, with_tracer a) =
          rw (made, init_tracing) in
        second (sym e ∙ traced)
    | inr (x, failed) ↦ absurd (ground arith)
  ]

  pub start_rest_ok :
      (service : Service) (a b : App)
      → start_rest sdk cfg answers service a ≡ (none, b)
      → b ≡ with_server (with_tracer (with_broker a))
  unfolding init_http_server
  start_rest_ok service a b e =
      let (c, broker, rest) = step-none "failed to initialize broker" (init_broker cfg) _ a b e in
      let (d, traced, rest') =
        step-none "failed to initialize tracing" (init_tracing sdk cfg answers service) _ c b
          rest in
      second (sym rest')
      ∙ ap with_server (init_tracing_ok service c d traced)
      ∙ ap (λ x. with_server (with_tracer x)) (init_broker_ok a c broker)

  -- A connection that is not open yet gives its client back, or leaves nothing open.
  init_postgresql-cases :
      (h : Handles)
      → let r = init_postgresql cfg answers (record h { postgres = false }) in
        ((given : Bool) × (r ≡ (ok given, record h { postgres = given })))
        ⊎ ((e : Err) × (r ≡ (err e, record h { postgres = false })))
  unfolding init_postgresql
  init_postgresql-cases h = elim (Bool-cases (cfg.database.postgres.host == "")) [
    | inl unset ↦ inl (false, rw (unset, init_postgresql))
    | inr set ↦ elim (Option-cases answers.postgres_open) [
      | inr (e, failed) ↦ inr (wrap "failed to open database" e, rw (set, failed, init_postgresql))
      | inl connected ↦ elim (Option-cases answers.postgres_ping) [
        | inr (e, failed) ↦
            inr (wrap "failed to ping database" e, rw (set, connected, failed, init_postgresql))
        | inl alive ↦ inl (true, rw (set, connected, alive, init_postgresql))
      ]
    ]
  ]

  init_mongodb-cases :
      (h : Handles)
      → let r = init_mongodb cfg answers (record h { mongo = false }) in
        ((given : Bool) × (r ≡ (ok given, record h { mongo = given })))
        ⊎ ((e : Err) × (r ≡ (err e, record h { mongo = false })))
  unfolding init_mongodb
  init_mongodb-cases h = elim (Bool-cases (cfg.database.mongodb.uri == "")) [
    | inl unset ↦ inl (false, rw (unset, init_mongodb))
    | inr set ↦ elim (Option-cases answers.mongo_connect) [
      | inr (e, failed) ↦
          inr (wrap "failed to connect to MongoDB" e, rw (set, failed, init_mongodb))
      | inl connected ↦ elim (Option-cases answers.mongo_ping) [
        | inr (e, failed) ↦
            inr (wrap "failed to ping MongoDB" e, rw (set, connected, failed, init_mongodb))
        | inl alive ↦ inl (true, rw (set, connected, alive, init_mongodb))
      ]
    ]
  ]

  pub store_redis_ok :
      (a : App) → store_redis answers new_app ≡ (none, a) → a ≡ connected true false false
  unfolding store_redis init_redis
  store_redis_ok a e = elim (Option-cases answers.redis_ping) [
    | inl alive ↦
        let made : store_redis answers new_app ≡ (none, connected true false false) =
          rw (alive, store_redis, init_redis) in
        second (sym e ∙ made)
    | inr (x, failed) ↦ absurd (ground arith)
  ]

  pub store_postgres_ok :
      (redis mongo : Bool) (a : App)
      → store_postgres cfg answers (connected redis false mongo) ≡ (none, a)
      → (given : Bool) × (a ≡ connected redis given mongo)
  unfolding store_postgres
  store_postgres_ok redis mongo a e =
      let h = record nothing { redis = redis; mongo = mongo } in
      elim (init_postgresql-cases h) [
        | inr (x, failed) ↦ absurd (ground arith)
        | inl (given, r) ↦
            let made : store_postgres cfg answers (connected redis false mongo)
                ≡ (none, connected redis given mongo) =
              rw (r, store_postgres) in
            (given, second (sym e ∙ made))
      ]

  -- Where the error is ignored.
  pub store_postgres_tried :
      (redis mongo : Bool)
      → (given : Bool) × (ignored (store_postgres cfg answers (connected redis false mongo))
          ≡ connected redis given mongo)
  unfolding store_postgres
  store_postgres_tried redis mongo =
      let h = record nothing { redis = redis; mongo = mongo } in
      elim (init_postgresql-cases h) [
        | inr (x, failed) ↦ (false, rw (failed, store_postgres))
        | inl (given, r) ↦ (given, rw (r, store_postgres))
      ]

  pub store_mongo_ok :
      (redis postgres : Bool) (a : App)
      → store_mongo cfg answers (connected redis postgres false) ≡ (none, a)
      → (given : Bool) × (a ≡ connected redis postgres given)
  unfolding store_mongo
  store_mongo_ok redis postgres a e =
      let h = record nothing { redis = redis; postgres = postgres } in
      elim (init_mongodb-cases h) [
        | inr (x, failed) ↦ absurd (ground arith)
        | inl (given, r) ↦
            let made : store_mongo cfg answers (connected redis postgres false)
                ≡ (none, connected redis postgres given) =
              rw (r, store_mongo) in
            (given, second (sym e ∙ made))
      ]

  pub store_mongo_tried :
      (redis postgres : Bool)
      → (given : Bool) × (ignored (store_mongo cfg answers (connected redis postgres false))
          ≡ connected redis postgres given)
  unfolding store_mongo
  store_mongo_tried redis postgres =
      let h = record nothing { redis = redis; postgres = postgres } in
      elim (init_mongodb-cases h) [
        | inr (x, failed) ↦ (false, rw (failed, store_mongo))
        | inl (given, r) ↦ (given, rw (r, store_mongo))
      ]

  pub service_ok :
      (service_error : Option Err) (a c : App)
      → init_filtering_service sdk cfg answers service_error a ≡ (none, c)
      → a ≡ c
  service_ok none a c e = second e
  service_ok (some x) a c e = absurd (ground arith)
