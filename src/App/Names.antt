-- ===== src/App/Names.antt =====
-- cmd: the four services, and the three of them that read messages.
use yeti.Base.{String}

pub data Service : Type 0 where
  filtering dedup enrichment management : Service

abbrev pub name : Service → String
name filtering = "filtering-service"
name dedup = "dedup-service"
name enrichment = "enrichment-service"
name management = "management-service"

pub data Reader : Type 0 where
  filtering_reader dedup_reader enrichment_reader : Reader

abbrev pub service_of : Reader → Service
service_of filtering_reader = filtering
service_of dedup_reader = dedup
service_of enrichment_reader = enrichment
