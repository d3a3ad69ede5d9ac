-- ===== src/Metrics.antt =====
-- pkg/metrics: what is measured, and what each service registers.
pub mod Collectors
pub mod Registration
pub mod Samples
