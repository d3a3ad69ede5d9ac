-- ===== src/App/Options.antt =====
-- cmd/management-service/app.go: the service that `initRouter` makes of what is configured.
use yeti.Base.{
  ◌≡◌, ◌↔◌, Bool, true, Option, none, some, List, [], ◌∷◌, ◌++◌, arith, ◌==◌, eq_iff, if◌then◌else◌,
}
use yeti.Management.Store.{DeduplicationConfig}
use yeti.Management.Notifier.{ConfigEventProducer}
use yeti.Management.Service.{
  ServiceOption, with_versioning, with_enrichment, with_config_events, with_deduplication_config,
  new_service,
}

abbrev if_given : Option ConfigEventProducer → List ServiceOption
if_given none = []
if_given (some p) = with_config_events p ∷ []

-- `mongo` is whether there is a client of MongoDB; the repository of the versions is always there.
unfoldable pub service_options :
    Bool → Option ConfigEventProducer → DeduplicationConfig → List ServiceOption
service_options mongo events cfg =
    with_versioning
    ∷ ((if mongo then with_enrichment ∷ [] else [])
        ++ (if_given events
            ++ (if cfg.hash_algorithm == "" then [] else with_deduplication_config cfg ∷ [])))

-- The service keeps versions and an audit log, manages enrichment rules exactly with a client of
-- MongoDB, announces changes exactly with a producer of events, and starts with deduplication settings
-- exactly where a hash algorithm is configured.
pub new_service-service_options :
    (mongo : Bool) (events : Option ConfigEventProducer) (cfg : DeduplicationConfig)
    → let (s, settings) = new_service (service_options mongo events cfg) in
      (s.has_versioning_repo ≡ true)
      × (s.audit_enabled ≡ true)
      × (s.has_enrichment_repo ≡ mongo)
      × (s.config_event_producer ≡ events)
      × ((settings ≡ none) ↔ (cfg.hash_algorithm ≡ ""))
unfolding new_service service_options
new_service-service_options mongo events cfg = ground (arith, eq_iff cfg.hash_algorithm "")
