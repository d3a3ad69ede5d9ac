-- ===== src/App.antt =====
-- cmd and pkg/bootstrap: how the services start, run and stop.
pub mod Names
pub mod Bootstrap
pub mod Services
pub mod Started
pub mod Remains
pub mod Lifecycle
pub mod Topics
pub mod Options
pub mod HealthPage
pub mod Run
pub mod Serve
