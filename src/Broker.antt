-- ===== src/Broker.antt =====
-- internal/broker: what a handler sends, and the consumer's loop.
pub mod Producer
pub mod Process
pub mod Consume
pub mod Factory
pub mod Kafka
