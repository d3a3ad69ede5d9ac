-- ===== src/App/Run.antt =====
-- cmd/*/app.go: `Run`. The services that read messages run a group of functions, each of them in a
-- goroutine, and wait for them all. Package errgroup is a parameter; of the server of net/http, whose
-- `ListenAndServe` returns when it fails or when it is shut down, only the failure can happen here.
pub mod Waiting
use yeti.Base.{
  ℕ, ◌+◌, ◌≤◌, ◌≡◌, refl, ◌∙◌, Bool, true, false, ◌&&◌, not, Option, none, some, List, [], ◌∷◌,
  ◌++◌, arith, ◌==◌, if◌then◌else◌, nat_eq, ltb, ◌-◌, map, ap, is_some, inl, inr, ◌⊎◌,
}
use yeti.Base.Lists.{length}
use yeti.Errors.Chain.{Err, wrap}
use yeti.Errors.Result.{is_err}
use yeti.Config.Types.{Config}
use yeti.Broker.Factory.{new_consumer}
use yeti.Broker.Kafka.{new_kafka_consumer}
use yeti.App.Names.{Reader, filtering_reader}

-- A group of package errgroup: `with_context n` is the group after `WithContext` and n calls of `Go`,
-- `is_cancelled` is of its context, and `wait` what `Wait` answers, `none` while it blocks.
pub record Errgroup : Type 1 where
  pub State : Type 0
  pub with_context : ℕ → State
  pub parent_done : State → State
  pub function_returned : Option Err → State → State
  pub is_cancelled : State → Bool
  pub wait : State → Option (Option Err)

-- What its documentation says: the context is cancelled with its parent, or by the first error of a
-- function; `Wait` blocks until all functions have returned.
pub record Documented (eg : Errgroup) : Type 0 where
  pub running : eg.State → ℕ
  pub running_at_start : (n : ℕ) → running (eg.with_context n) ≡ n
  pub running_behind_parent : (g : eg.State) → running (eg.parent_done g) ≡ running g
  pub running_behind_return :
      (e : Option Err) (g : eg.State) → running (eg.function_returned e g) ≡ running g - 1
  pub wait_blocks : (g : eg.State) → is_some (eg.wait g) ≡ nat_eq (running g) 0
  pub cancelled_by_parent : (g : eg.State) → eg.is_cancelled (eg.parent_done g) ≡ true
  pub cancelled_by_error :
      (e : Err) (g : eg.State) → eg.is_cancelled (eg.function_returned (some e) g) ≡ true

-- Whether `Run` starts a consumer of the configuration's events: the filtering service tries to also
-- without a topic.
unfoldable pub reads_events : Config → Reader → Bool
reads_events cfg filtering_reader = not (is_err (new_consumer new_kafka_consumer cfg.broker))
reads_events cfg _ =
    cfg.broker.type_name == "kafka"
    && not (cfg.broker.kafka.config_update_topic == "")
    && not (is_err (new_consumer new_kafka_consumer cfg.broker))

-- The reloader of the rules, which only the filtering service runs in the group.
abbrev reloaders : Reader → ℕ
reloaders filtering_reader = 1
reloaders _ = 0

-- What happens to the group: the process gets a signal to stop, the server fails, or a function that
-- waits for the context finds it cancelled and answers its error; and to the consumer of the
-- configuration's events: its goroutine finds the context cancelled behind the event that it handles, and
-- ends, or `Close` of its reader and writer, which `Run` defers to its end, returns.
pub data Event : Type 0 where
  signalled : Event
  server_failed : Err → Event
  stopped : Err → Event
  reading_ended : Event
  clients_closed : Event

-- No event is a failure of the server.
abbrev pub server_holds : List Event → Bool
server_holds [] = true
server_holds (server_failed e ∷ events) = false
server_holds (_ ∷ events) = server_holds events

module _ (eg : Errgroup) where
  -- The functions that have not returned: the server's, and the number of those that wait for the
  -- group's context; and of the consumer of the configuration's events, whether its goroutine runs, and
  -- whether its clients are open.
  pub record Group : Type 0 where
    pub serving : Bool
    pub waiting : ℕ
    pub group : eg.State
    pub reading : Bool
    pub closing : Bool

  abbrev pub waiters : Config → Reader → ℕ
  waiters cfg service = (if reads_events cfg service then 1 else 0) + reloaders service + 1

  -- The group that `Run` starts; `server` is whether there is a server.
  unfoldable pub start_group : Config → Reader → Bool → Group
  start_group cfg service server = record {
    serving = server;
    waiting = waiters cfg service;
    group = eg.with_context ((if server then 1 else 0) + waiters cfg service);
    reading = reads_events cfg service;
    closing = reads_events cfg service;
  }

  -- An event that cannot happen changes nothing.
  unfoldable pub on_event : Event → Group → Group
  on_event signalled g = record g { group = eg.parent_done g.group }
  on_event (server_failed e) g =
      if g.serving
      then record g {
        serving = false;
        group = eg.function_returned (some (wrap "HTTP server error" e)) g.group;
      }
      else g
  on_event (stopped e) g =
      if eg.is_cancelled g.group && ltb 0 g.waiting
      then record g { waiting = g.waiting - 1; group = eg.function_returned (some e) g.group }
      else g
  on_event reading_ended g = if eg.is_cancelled g.group then record g { reading = false } else g
  on_event clients_closed g = if is_some (eg.wait g.group) then record g { closing = false } else g

  unfoldable pub run : List Event → Group → Group
  run [] g = g
  run (e ∷ events) g = run events (on_event e g)

  -- `Wait` has returned, and so has the deferred `Close` of the consumer, which waits for its goroutine.
  abbrev pub has_returned : Group → Bool
  has_returned g = is_some (eg.wait g.group) && not g.reading && not g.closing
