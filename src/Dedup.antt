-- ===== src/Dedup.antt =====
-- internal/deduplication: a hash of some fields of a message, and its first appearance in Redis.
-- Logs and traces are left out, and the metrics but for the size of the cache.
pub mod CacheSize
pub mod Hasher
pub mod Data
pub mod Collisions
pub mod Service
pub mod Guarded
pub mod First
pub mod Handle
