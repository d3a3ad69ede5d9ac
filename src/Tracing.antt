-- ===== src/Tracing.antt =====
-- pkg/tracing: the headers that carry a trace over Kafka, and the provider of traces.
pub mod Carrier
pub mod Provider
