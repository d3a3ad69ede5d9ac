-- ===== src/Providers.antt =====
-- internal/enrichment/provider: where the enrichment service fetches data from. Go's text functions,
-- HTTP, Redis, MongoDB and PostgreSQL are parameters.
pub mod Query
pub mod Sources
pub mod Database
pub mod Lookup
pub mod Guarded
pub mod Service
