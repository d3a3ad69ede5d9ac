-- ===== src/App/Run/Waiting.antt =====
-- When `Run` of a service that reads messages returns.
use yeti.Base.{
  ◌+◌, ◌≤◌, ◌≡◌, refl, ◌∙◌, ap, ◌⊎◌, inl, inr, Bool, true, false, some, List, [], ◌∷◌, ◌++◌, map,
  arith, if◌then◌else◌,
}
use yeti.Base.Lists.{length}
use yeti.Errors.Chain.{Err, wrap}
use yeti.Config.Types.{Config}
use yeti.App.Names.{Reader}
use yeti.App.Run.{
  Errgroup, Documented, Event, signalled, server_failed, stopped, reading_ended, clients_closed,
  server_holds, Group, waiters, start_group, on_event, run, has_returned,
}

module _ (eg : Errgroup) where
  serving-run :
      (events : List Event) (g : Group eg)
      → server_holds events ≡ true
      → (run eg events g).serving ≡ g.serving
  unfolding run on_event
  serving-run [] g h = refl
  serving-run (signalled ∷ events) g h = serving-run events _ h
  serving-run (server_failed e ∷ events) g h = absurd (ground arith)
  serving-run (stopped e ∷ events) g h =
      serving-run events (on_event eg (stopped e) g) h ∙ ground arith
  serving-run (reading_ended ∷ events) g h =
      serving-run events (on_event eg reading_ended g) h ∙ ground arith
  serving-run (clients_closed ∷ events) g h =
      serving-run events (on_event eg clients_closed g) h ∙ ground arith

  run-append : (xs ys : List Event) (g : Group eg) → run eg (xs ++ ys) g ≡ run eg ys (run eg xs g)
  unfolding run
  run-append [] ys g = refl
  run-append (x ∷ xs) ys g = run-append xs ys (on_event eg x g)

  module _ (doc : Documented eg) where
    -- The group runs the server's function, and those that wait.
    abbrev IsCounted : Group eg → Type 0
    IsCounted g = doc.running g.group ≡ (if g.serving then 1 else 0) + g.waiting

    on_event-IsCounted :
        (e : Event) (g : Group eg)
        → IsCounted g
        → IsCounted (on_event eg e g) × ((on_event eg e g).waiting ≤ g.waiting)
    unfolding on_event
    on_event-IsCounted signalled g h = ground (arith, doc.running_behind_parent g.group)
    on_event-IsCounted (server_failed e) g h =
        ground (arith, doc.running_behind_return (some (wrap "HTTP server error" e)) g.group)
    on_event-IsCounted (stopped e) g h = ground (arith, doc.running_behind_return (some e) g.group)
    on_event-IsCounted reading_ended g h = ground arith
    on_event-IsCounted clients_closed g h = ground arith

    run-IsCounted :
        (events : List Event) (g : Group eg)
        → IsCounted g
        → IsCounted (run eg events g) × ((run eg events g).waiting ≤ g.waiting)
    unfolding run
    run-IsCounted [] g h = (h, omega arith)
    run-IsCounted (e ∷ events) g h =
        let (counted, less) = on_event-IsCounted e g h in
        let (counted', less') = run-IsCounted events (on_event eg e g) counted in
        (counted', omega arith)

    start_group-IsCounted :
        (cfg : Config) (service : Reader) (server : Bool)
        → IsCounted (start_group eg cfg service server)
    unfolding start_group
    start_group-IsCounted cfg service server =
        doc.running_at_start ((if server then 1 else 0) + waiters eg cfg service)

    -- Where errgroup does what it documents, a service that reads messages, whose server runs, does not
    -- return from `Run` before its server fails: neither a signal nor the end of all the functions that
    -- wait for the context makes it return, in whatever order they come.
    pub run_holds :
        (cfg : Config) (service : Reader) (events : List Event)
        → server_holds events ≡ true
        → has_returned eg (run eg events (start_group eg cfg service true)) ≡ false
    unfolding start_group
    run_holds cfg service events h =
        let g = start_group eg cfg service true in
        let (counted, less) = run-IsCounted events g (start_group-IsCounted cfg service true) in
        ground (arith, serving-run events g h, doc.wait_blocks (run eg events g).group)

    -- What is left to happen once the server has failed: the functions that wait stop, the goroutine of
    -- the consumer of the configuration's events ends, and its clients are closed.
    abbrev pub ending : List Err → List Event
    ending errs = map stopped errs ++ (reading_ended ∷ clients_closed ∷ [])

    -- All functions that wait stop once the context is cancelled.
    run_stops :
        (errs : List Err) (g : Group eg)
        → IsCounted g
        → g.serving ≡ false
        → eg.is_cancelled g.group ≡ true
        → g.waiting ≤ length errs
        → has_returned eg (run eg (ending errs) g) ≡ true
    unfolding run on_event
    run_stops [] g counted left cancelled few = ground (arith, doc.wait_blocks g.group)
    run_stops (e ∷ errs) g counted left cancelled few =
        run_stops errs (on_event eg (stopped e) g) (on_event-IsCounted (stopped e) g counted).0
          (ground arith) (ground (arith, doc.cancelled_by_error e g.group)) (ground arith)

    -- A group that the server has left is cancelled.
    abbrev IsOrdered : Group eg → Type 0
    IsOrdered g = (g.serving ≡ true) ⊎ (eg.is_cancelled g.group ≡ true)

    on_event-IsOrdered : (e : Event) (g : Group eg) → IsOrdered g → IsOrdered (on_event eg e g)
    unfolding on_event
    on_event-IsOrdered signalled g h = inr (doc.cancelled_by_parent g.group)
    on_event-IsOrdered (server_failed e) g h =
        ground (arith, doc.cancelled_by_error (wrap "HTTP server error" e) g.group)
    on_event-IsOrdered (stopped e) g h = ground (arith, doc.cancelled_by_error e g.group)
    on_event-IsOrdered reading_ended g h = ground arith
    on_event-IsOrdered clients_closed g h = ground arith

    run-IsOrdered : (events : List Event) (g : Group eg) → IsOrdered g → IsOrdered (run eg events g)
    unfolding run
    run-IsOrdered [] g h = h
    run-IsOrdered (e ∷ events) g h =
        run-IsOrdered events (on_event eg e g) (on_event-IsOrdered e g h)

    -- Where errgroup does what it documents, `Run` returns, whatever happened before, once the server has
    -- failed, each of the functions that wait for the group's context has noticed that it is cancelled,
    -- the goroutine that reads the configuration's events has ended behind the event that it handles, and
    -- the calls that close its clients have returned.
    pub run_ends :
        (cfg : Config) (service : Reader) (events : List Event) (e : Err) (errs : List Err)
        → (start_group eg cfg service true).waiting ≤ length errs
        → has_returned eg
            (run eg (events ++ (server_failed e ∷ ending errs)) (start_group eg cfg service true))
          ≡ true
    unfolding run on_event start_group
    run_ends cfg service events e errs enough =
        let start = start_group eg cfg service true in
        let g = run eg events start in
        let (counted, less) = run-IsCounted events start (start_group-IsCounted cfg service true) in
        let ordered = run-IsOrdered events start (inl refl) in
        ap (has_returned eg) (run-append events (server_failed e ∷ ending errs) start)
        ∙ run_stops errs (on_event eg (server_failed e) g)
            (on_event-IsCounted (server_failed e) g counted).0 (ground arith)
            (ground (arith, doc.cancelled_by_error (wrap "HTTP server error" e) g.group))
            (ground arith)

    -- Without a server, a signal is enough.
    pub run_ends_by_signal :
        (cfg : Config) (service : Reader) (errs : List Err)
        → (start_group eg cfg service false).waiting ≤ length errs
        → has_returned eg (run eg (signalled ∷ ending errs) (start_group eg cfg service false))
          ≡ true
    unfolding run on_event start_group
    run_ends_by_signal cfg service errs enough =
        let start = start_group eg cfg service false in
        run_stops errs (on_event eg signalled start)
          (on_event-IsCounted signalled start (start_group-IsCounted cfg service false)).0 refl
          (doc.cancelled_by_parent start.group) enough
