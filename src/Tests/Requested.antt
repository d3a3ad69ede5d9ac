-- ===== src/Tests/Requested.antt =====
-- What is written about requests and messages: headers, logs and metrics.
use yeti.Base.{ℕ, String, ◌≡◌, refl, false, Option, none, some, List, [], ◌∷◌, ◌++◌}
use yeti.Base.Dict.{lookup}
use yeti.Errors.Chain.{Err}
use yeti.Errors.Result.{ok}
use yeti.Tests.Fixtures.{order}
use yeti.Tracing.Carrier.{Propagator, extract_trace_context}
use yeti.Broker.Kafka.{Message, message, publish, publish_untraced}
use yeti.Middleware.{
  CustomRecovery, Recovers, Request, Gin, Handler, panicked, returned, error_entry, identified,
  chain, chain_panicked,
}
use yeti.Logging.{}

-- A trace is a text, which the header "traceparent" carries.
abbrev traceparent : Propagator String
traceparent = record {
  inject = λ trace headers. ("traceparent", trace) ∷ [];
  extract = λ trace get keys. get "traceparent";
}

abbrev trace : String
trace = "trace 7"

abbrev write : Message → List Message → Option Err × List Message
write m sent = (none, sent ++ (m ∷ []))

publish_untraced_example :
    (publish (λ m. ok "{}") write (some traceparent) trace "events" order 5 []
      ≡ publish (λ m. ok "{}") write none trace "events" order 5 [])
    × (extract_trace_context
          (some traceparent)
          ""
          (message (λ m. ok "{}") write (some traceparent) trace "events" order 5 "{}").headers
        ≡ "")
publish_untraced_example =
    publish_untraced (λ m. ok "{}") write traceparent traceparent trace "" "events" order 5 [] "{}"

abbrev show : ℕ → String
show n = "a number"

abbrev request : Request
request = record { path = "/api/v1/rules"; raw_query = ""; method = "GET"; headers = [] }

abbrev gin : Gin
gin = record { status = 200; headers = []; body = []; keys = []; aborted = false; log = [] }

abbrev broken : Handler
broken r c = panicked "nil map" c

abbrev catching : CustomRecovery
catching handle (returned c) = returned c
catching handle (panicked what c) = returned (handle what c)

catching-Recovers : Recovers catching
catching-Recovers = record { passes = λ handle c. refl; catches = λ handle what c. refl }

chain_panicked_example :
    (g : Gin) × (chain catching show "id 1" broken request gin ≡ returned g)
    × (g.status ≡ 500)
    × (lookup "error_code" g.body ≡ some "INTERNAL_ERROR")
    × (g.headers ≡ (identified "id 1" request gin).headers)
    × (g.log
        ≡ error_entry "Panic recovered"
            (("error", "nil map") ∷ ("path", "/api/v1/rules") ∷ ("method", "GET") ∷ [])
          ∷ [])
chain_panicked_example =
    chain_panicked catching show "id 1" broken request gin (identified "id 1" request gin) "nil map"
      catching-Recovers refl
