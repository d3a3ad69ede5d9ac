-- ===== src/Model.antt =====
-- The message that travels through the pipeline: pkg/models.
pub mod Value
pub mod Message
pub mod Builder
pub mod Event
