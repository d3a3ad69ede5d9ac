-- ===== src/Management.antt =====
-- internal/management: what the API admits into the stored rules and settings.
pub mod Audit
pub mod Requests
pub mod Validator
pub mod Notifier
pub mod Store
pub mod Repository
pub mod Versioning
pub mod EnrichmentRepository
pub mod Service
pub mod FilteringRules
pub mod EnrichmentRules
pub mod DedupSettings
pub mod Stored
pub mod Changes
pub mod Settings
pub mod History
pub mod Runs
pub mod Overlap
pub mod Numbering
pub mod Effect
pub mod Sources
pub mod Invariants
pub mod Handler
pub mod Http
pub mod Announces
pub mod Unheard
pub mod Admits
