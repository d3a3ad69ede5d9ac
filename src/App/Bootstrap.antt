-- ===== src/App/Bootstrap.antt =====
-- pkg/bootstrap: the connections that the services share. What the servers and the drivers answer is a
-- parameter.
use yeti.Base.{
  String, ◌≡◌, refl, Bool, true, false, not, Option, none, some, List, [], ◌∷◌, ◌++◌, arith, ◌==◌,
  if◌then◌else◌, is_some,
}
use yeti.Errors.Chain.{Err, wrap}
use yeti.Errors.Result.{Result, ok, err}
use yeti.Config.Types.{Config}
use yeti.Broker.Factory.{new_producer, new_consumer}
use yeti.Broker.Kafka.{new_kafka_producer, new_kafka_consumer}

-- What a service may hold or have open; `events` is the producer of the configuration's events.
pub record Handles : Type 0 where
  pub redis : Bool
  pub postgres : Bool
  pub mongo : Bool
  pub producer : Bool
  pub consumer : Bool
  pub events : Bool
  pub tracer : Bool
  pub server : Bool

abbrev pub nothing : Handles
nothing = record {
  redis = false;
  postgres = false;
  mongo = false;
  producer = false;
  consumer = false;
  events = false;
  tracer = false;
  server = false;
}

-- The pointers of an application that are not nil, and what was made and not closed since: a call that
-- closes counts also where it answers an error.
pub record App : Type 0 where
  pub held : Handles
  pub opened : Handles

-- The answers: those to the calls that connect, and to those that close; `nil_database` is what a call of
-- `Database` on a nil client of MongoDB panics with, if it does, and `nil_query` a query of a nil `*sql.DB`.
pub record Answers : Type 0 where
  pub redis_ping : Option Err
  pub postgres_open : Option Err
  pub postgres_ping : Option Err
  pub mongo_connect : Option Err
  pub mongo_ping : Option Err
  pub close_redis : Option Err
  pub close_postgres : Option Err
  pub disconnect_mongo : Option Err
  pub close_producer : Option Err
  pub close_consumer : Option Err
  pub shutdown_server : Option Err
  pub shutdown_tracer : Option Err
  pub nil_database : Option Err
  pub nil_query : Option Err

-- A function of the start: its error, and the application behind it.
abbrev pub Act : Type 0
Act = App → Option Err × App

abbrev pub proceed : Option Err × App → Act → Option Err × App
proceed (none, a) next = next a
proceed (some e, a) next = (some e, a)

abbrev pub prefixed : String → Option Err × App → Option Err × App
prefixed prefix (none, a) = (none, a)
prefixed prefix (some e, a) = (some (wrap prefix e), a)

-- `if err := act(); err != nil { return fmt.Errorf("prefix: %w", err) }` before the rest.
abbrev pub step : String → Act → Act → Act
step prefix act next a = proceed (wrapped (act a)) next
  where
    wrapped : Option Err × App → Option Err × App
    wrapped (none, b) = (none, b)
    wrapped (some e, b) = (some (wrap prefix e), b)

-- A start that goes on has passed its first function.
pub step-none :
    (prefix : String) (act next : Act) (a b : App)
    → step prefix act next a ≡ (none, b)
    → (c : App) × (act a ≡ (none, c)) × (next c ≡ (none, b))
step-none prefix act next a b e = passed (act a) refl e
  where
    passed :
        (r : Option Err × App)
        → act a ≡ r
        → proceed (prefixed prefix r) next ≡ (none, b)
        → (c : App) × (act a ≡ (none, c)) × (next c ≡ (none, b))
    passed (none, c) p q = (c, p, q)
    passed (some x, c) p q = absurd (ground arith)

abbrev pub done : Act
done a = (none, a)

-- The three connections: the client, if one is given back, and what is open.
unfoldable pub init_redis : Answers → Handles → Result Bool × Handles
init_redis answers h =
    let opened = record h { redis = true } in
    elim answers.redis_ping [
      | none ↦ (ok true, opened)
      | some e ↦ (err (wrap "failed to ping Redis" e), opened)
    ]

unfoldable pub init_postgresql : Config → Answers → Handles → Result Bool × Handles
init_postgresql cfg answers h =
    let opened = record h { postgres = true } in
    if cfg.database.postgres.host == "" then (ok false, h) else elim answers.postgres_open [
      | some e ↦ (err (wrap "failed to open database" e), h)
      | none ↦ elim answers.postgres_ping [
        | some e ↦ (err (wrap "failed to ping database" e), record opened { postgres = false })
        | none ↦ (ok true, opened)
      ]
    ]

unfoldable pub init_mongodb : Config → Answers → Handles → Result Bool × Handles
init_mongodb cfg answers h =
    let opened = record h { mongo = true } in
    if cfg.database.mongodb.uri == "" then (ok false, h) else elim answers.mongo_connect [
      | some e ↦ (err (wrap "failed to connect to MongoDB" e), h)
      | none ↦ elim answers.mongo_ping [
        | some e ↦ (err (wrap "failed to ping MongoDB" e), record opened { mongo = false })
        | none ↦ (ok true, opened)
      ]
    ]

-- `InitBroker`; the name of the service is only set in the consumer.
unfoldable pub init_broker : Config → Act
init_broker cfg a = elim (new_producer new_kafka_producer cfg.broker) [
  | err e ↦ (some (wrap "failed to create producer" e), a)
  | ok producer ↦
      let opened = record a.opened { producer = true } in
      elim (new_consumer new_kafka_consumer cfg.broker) [
        | err e ↦ (
          some (wrap "failed to create consumer" e),
          record a { opened = record opened { producer = false } },
        )
        | ok consumer ↦ (
          none,
          record {
            held = record a.held { producer = true; consumer = true };
            opened = record opened { consumer = true };
          },
        )
      ]
]

-- `if x != nil { if err := x.Close(); err != nil { errs = append(errs, …) } }`
abbrev pub close_error : Bool → String → Option Err → List Err
close_error false prefix e = []
close_error true prefix none = []
close_error true prefix (some e) = wrap prefix e ∷ []

-- What is still open after something held is closed.
abbrev pub still_open : Bool → Bool → Bool
still_open true o = false
still_open false o = o

unfoldable pub shutdown_broker : Answers → App → List Err × App
shutdown_broker answers a = (
  close_error a.held.producer "producer close error" answers.close_producer
      ++ close_error a.held.consumer "consumer close error" answers.close_consumer,
  record a {
    opened = record a.opened {
      producer = still_open a.held.producer a.opened.producer;
      consumer = still_open a.held.consumer a.opened.consumer;
    };
  },
)

-- The three flags are the clients that are passed and not nil.
unfoldable pub shutdown_databases : Answers → Bool → Bool → Bool → App → List Err × App
shutdown_databases answers redis postgres mongo a = (
  close_error redis "redis close error" answers.close_redis
      ++ (close_error postgres "postgres close error" answers.close_postgres
          ++ close_error mongo "mongodb disconnect error" answers.disconnect_mongo),
  record a {
    opened = record a.opened {
      redis = still_open redis a.opened.redis;
      postgres = still_open postgres a.opened.postgres;
      mongo = still_open mongo a.opened.mongo;
    };
  },
)

-- `Shutdown`: the broker, then the rest. The errors are those that its error prints; without any it
-- answers nil.
unfoldable pub shutdown : Answers → (App → List Err × App) → App → List Err × App
shutdown answers additional a =
    let (errs, b) = shutdown_broker answers a in let (more, c) = additional b in (errs ++ more, c)

-- Whether a connection gave a client back.
abbrev pub client : Result Bool → Bool
client (ok given) = given
client (err e) = false

-- A connection to PostgreSQL or MongoDB is open afterwards exactly when its client is given back: one
-- whose ping fails is closed. The client of Redis is open also when its ping fails, and then nobody
-- holds it.
pub connections_open :
    (cfg : Config) (answers : Answers)
    → ((init_postgresql cfg answers nothing).1.postgres
        ≡ client (init_postgresql cfg answers nothing).0)
      × ((init_mongodb cfg answers nothing).1.mongo ≡ client (init_mongodb cfg answers nothing).0)
      × ((init_redis answers nothing).1.redis ≡ true)
      × (client (init_redis answers nothing).0 ≡ not (is_some answers.redis_ping))
unfolding init_redis init_postgresql init_mongodb
connections_open cfg answers = ground arith
