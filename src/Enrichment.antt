-- ===== src/Enrichment.antt =====
-- internal/enrichment: rules that add data from a cache and from providers to a message's metadata.
-- Metrics, logs and traces are left out: they change nothing that the code reads.
pub mod Types
pub mod Fetch
pub mod Keys
pub mod Transform
pub mod Process
pub mod Handle
pub mod Reload
