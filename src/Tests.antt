-- ===== src/Tests.antt =====
-- Runs at concrete data, and the theorems at them.
mod Fixtures
mod Filtering
mod Dedup
mod Retry
mod Broker
mod Enrichment
mod Errors
mod Settings
mod Management
mod Table
mod Rules
mod Requests
mod Numbers
mod Effect
mod Unheard
mod Pipeline
mod Providers
mod Guarded
mod App
mod Requested
