-- ===== src/App/HealthPage.antt =====
-- cmd/*/app.go: the page "/health", of the checkers that `initHTTPServer`, and `initRouter` of
-- the management service, register.
use yeti.Base.{
  ℕ, String, ◌≡◌, ◌↔◌, ◌⊎◌, ◌≢◌, Bool, false, not, Option, none, some, List, [], ◌∷◌, ◌++◌, arith,
  if◌then◌else◌,
}
use yeti.Errors.Chain.{Err}
use yeti.Health.{
  Status, healthy, degraded, unhealthy, Checker, postgresql_checker, redis_checker, mongodb_checker,
  check, check_healthy_iff,
}
use yeti.App.Names.{Service, filtering, dedup, enrichment, management}
use yeti.App.Bootstrap.{Handles}

-- The errors of the pings, when the page is asked for.
pub record Pings : Type 0 where
  pub redis : Option Err
  pub mongo : Option Err
  pub postgres : Option Err

-- `Register`.
unfoldable pub register : Checker → List Checker → List Checker
register checker checkers = checkers ++ (checker ∷ [])

abbrev register_if : Bool → Checker → List Checker → List Checker
register_if held checker checkers = if held then register checker checkers else checkers

-- The registry of an application: a checker for each client that it holds, but that the management
-- service has the checker of PostgreSQL also for a nil client.
unfoldable pub registry : Service → Handles → Pings → List Checker
registry management held pings =
    register_if held.mongo (mongodb_checker pings.mongo)
      (register (postgresql_checker pings.postgres) [])
registry _ held pings = register_if held.postgres (postgresql_checker pings.postgres) (
    register_if held.mongo (mongodb_checker pings.mongo)
      (register_if held.redis (redis_checker pings.redis) []))

-- Whether a checker has a nil client, whose `PingContext` panics.
abbrev pub pings_nil : Service → Handles → Bool
pings_nil management held = not held.postgres
pings_nil _ held = false

unfoldable pub status_code : Status → ℕ
status_code unhealthy = 503
status_code healthy = 200
status_code degraded = 200

-- The status that the page answers, `none` where asking for it panics.
unfoldable pub health_page : (Err → String) → Service → Handles → Pings → Option ℕ
health_page describe service held pings =
    if pings_nil service held
    then none
    else some (status_code (check describe (registry service held pings)).status)

abbrev IsFine : Bool → Option Err → Type 0
IsFine held ping = (held ≡ false) ⊎ (ping ≡ none)

-- The databases whose client a service holds and checks answer their pings; the management service has
-- none of Redis.
abbrev IsWell : Service → Handles → Pings → Type 0
IsWell management held pings = IsFine held.mongo pings.mongo × IsFine held.postgres pings.postgres
IsWell _ held pings =
    IsFine held.redis pings.redis
    × IsFine held.mongo pings.mongo
    × IsFine held.postgres pings.postgres

-- In the management service without a client of PostgreSQL, asking for the page panics. Otherwise, and
-- in the other services, the page answers 200 exactly when each database whose client the service holds
-- answers its ping, and 503 else; a database without a client does not count. The management service
-- does not check Redis.
pub health_page_iff :
    (describe : Err → String) (service : Service) (held : Handles) (pings : Pings)
    → let page = health_page describe service held pings in
      ((page ≡ none) ↔ ((service ≡ management) × (held.postgres ≡ false)))
      × ((page ≡ some 200) ↔ ((page ≢ none) × IsWell service held pings))
      × ((page ≡ none) ⊎ ((page ≡ some 200) ⊎ (page ≡ some 503)))
unfolding health_page registry register status_code postgresql_checker redis_checker mongodb_checker
health_page_iff describe filtering held pings =
    ground (arith, check_healthy_iff describe (registry filtering held pings))
health_page_iff describe dedup held pings =
    ground (arith, check_healthy_iff describe (registry dedup held pings))
health_page_iff describe enrichment held pings =
    ground (arith, check_healthy_iff describe (registry enrichment held pings))
health_page_iff describe management held pings =
    ground (arith, check_healthy_iff describe (registry management held pings))
