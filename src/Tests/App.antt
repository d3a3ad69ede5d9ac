-- ===== src/Tests/App.antt =====
-- The start, the run and the stop of the services.
use yeti.Base.{
  ℕ, ◌-◌, nat_eq, is_some, Bool, ◌||◌, if◌then◌else◌, String, ◌≡◌, ◌↔◌, ◌⊎◌, ◌≢◌, refl, true, false,
  Option, none, some, List, [], ◌∷◌, arith,
}
use yeti.Errors.Chain.{Err, plain}
use yeti.Errors.Result.{Result, ok}
use yeti.Config.Types.{Config, KafkaConfig}
use yeti.Tests.Settings.{settings}
use yeti.Tracing.Provider.{Sdk, init}
use yeti.Broker.Factory.{new_producer, new_consumer}
use yeti.App.Names.{enrichment, management, filtering_reader, dedup_reader, enrichment_reader}
use yeti.App.Bootstrap.{
  nothing, App, Answers, init_redis, init_postgresql, init_mongodb, init_broker,
}
use yeti.App.Services.{
  store_redis, store_postgres, store_mongo, init_http_server, init_tracing, initialize_enrichment,
  init_enrichment_service, initialize, shutdown_service,
}
use yeti.App.Started.{new_app}
use yeti.App.Lifecycle.{initialize-shutdown_service}
use yeti.App.Run.{
  Errgroup, Documented, signalled, server_failed, stopped, reading_ended, clients_closed, run,
  start_group, has_returned, reads_events,
}
use yeti.App.Run.Waiting.{run_holds, run_ends}
use yeti.App.Topics.{input_topic, output_topic, output_topic-input_topic}
use yeti.App.HealthPage.{Pings, health_page, health_page_iff}

-- A SDK whose calls all work, and servers that all answer; Redis is not closed without an error.
abbrev sdk : Sdk
sdk = record {
  Resource = String;
  Exporter = Unit;
  Provider = String;
  new_resource = ok;
  new_exporter = λ options. ok tt;
  plain_provider = "plain";
  new_provider = λ exporter resource sampler. resource;
}

abbrev answers : Answers
answers = record {
  redis_ping = none;
  postgres_open = none;
  postgres_ping = none;
  mongo_connect = none;
  mongo_ping = none;
  close_redis = some (plain "closed before");
  close_postgres = none;
  disconnect_mongo = none;
  close_producer = none;
  close_consumer = none;
  shutdown_server = none;
  shutdown_tracer = none;
  nil_database = some (plain "nil pointer dereference");
  nil_query = some (plain "nil pointer dereference");
}

abbrev with_mongo : Config
with_mongo = record settings {
  database = record settings.database {
    mongodb = record { uri = "mongodb://db"; database = "yeti" };
  };
}

abbrev enriching : App
enriching =
    let h = record nothing {
      redis = true;
      mongo = true;
      producer = true;
      consumer = true;
      tracer = true;
      server = true;
    } in
    record { held = h; opened = h }

enriching_started : initialize sdk with_mongo answers enrichment none new_app ≡ (none, enriching)
unfolding initialize initialize_enrichment store_redis store_mongo store_postgres init_redis
    init_mongodb init_postgresql init_broker new_producer new_consumer init_tracing init
    init_http_server init_enrichment_service
enriching_started = refl

initialize-shutdown_service_example :
    (shutdown_service sdk with_mongo answers enrichment enriching).1.opened
    ≡ record nothing { tracer = true }
initialize-shutdown_service_example =
    initialize-shutdown_service sdk with_mongo answers enrichment none enriching enriching_started

-- A group as the number of the functions that run, whether its context is cancelled, and the error.
abbrev Counted : Type 0
Counted = ℕ × Bool × Option Err

abbrev first : Option Err → Option Err → Option Err
first none e = e
first (some e) later = some e

abbrev counting : Errgroup
counting = record {
  State = Counted;
  with_context = λ n. (n, false, none);
  parent_done = λ (n, cancelled, error). (n, true, error);
  function_returned = λ e (n, cancelled, error). (n - 1, cancelled || is_some e, first error e);
  is_cancelled = λ (n, cancelled, error). cancelled;
  wait = λ (n, cancelled, error). if nat_eq n 0 then some error else none;
}

counting-Documented : Documented counting
counting-Documented = record {
  running = λ g. g.0;
  running_at_start = λ n. refl;
  running_behind_parent = λ g. refl;
  running_behind_return = λ e g. refl;
  wait_blocks = λ g. ground arith;
  cancelled_by_parent = λ g. refl;
  cancelled_by_error = λ e g. ground arith;
}

run_holds_example :
    has_returned counting (
      run counting
        (signalled ∷ stopped (plain "canceled") ∷ stopped (plain "canceled") ∷ [])
        (start_group counting settings dedup_reader true))
    ≡ false
run_holds_example =
    run_holds counting counting-Documented settings dedup_reader
      (signalled ∷ stopped (plain "canceled") ∷ stopped (plain "canceled") ∷ []) refl

two_wait : (start_group counting settings dedup_reader true).waiting ≡ 2
unfolding start_group reads_events new_consumer
two_wait = refl

run_ends_example :
    has_returned counting (
      run counting
        (signalled
          ∷ server_failed (plain "port in use")
          ∷ stopped (plain "canceled")
          ∷ stopped (plain "canceled")
          ∷ reading_ended
          ∷ clients_closed
          ∷ [])
        (start_group counting settings dedup_reader true))
    ≡ true
run_ends_example =
    run_ends counting counting-Documented settings dedup_reader (signalled ∷ [])
      (plain "port in use") (plain "canceled" ∷ plain "canceled" ∷ []) (omega (arith, two_wait))

abbrev managing : App
managing = record {
  held = record nothing { tracer = true; server = true };
  opened = record nothing { tracer = true; server = true; events = true };
}

abbrev load : String → Result Config
load file = ok settings

abbrev new_logger : Config → Option Err
new_logger cfg = none

abbrev errors_of : List Err → Err
errors_of errs = plain "shutdown errors"

abbrev pings : Pings
pings = record { redis = some (plain "refused"); mongo = some (plain "refused"); postgres = none }

abbrev describe : Err → String
describe e = "an error"

health_page_iff_example :
    let page = health_page describe enrichment enriching.held pings in
    ((page ≡ none) ↔ ((enrichment ≡ management) × (enriching.held.postgres ≡ false)))
    × ((page ≡ some 200) ↔ (
        (page ≢ none)
        × (((enriching.held.redis ≡ false) ⊎ (pings.redis ≡ none))
            × ((enriching.held.mongo ≡ false) ⊎ (pings.mongo ≡ none))
            × ((enriching.held.postgres ≡ false) ⊎ (pings.postgres ≡ none)))))
    × ((page ≡ none) ⊎ ((page ≡ some 200) ⊎ (page ≡ some 503)))
health_page_iff_example = health_page_iff describe enrichment enriching.held pings

abbrev unset : KafkaConfig
unset = settings.broker.kafka

output_topic-input_topic_example :
    ((output_topic filtering_reader unset ≡ input_topic dedup_reader unset)
      ↔ (unset.input_topic ≡ "dedup_events"))
    × ((output_topic dedup_reader unset ≡ input_topic enrichment_reader unset)
        ↔ ((unset.input_topic ≡ "") ⊎ (unset.input_topic ≡ "deduplicated_events")))
output_topic-input_topic_example = output_topic-input_topic unset unset unset refl refl
