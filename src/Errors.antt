-- ===== src/Errors.antt =====
-- pkg/errors, and the markers of pkg/retry: error values as chains, and the shared detail maps.
pub mod Chain
pub mod Result
pub mod Rows
pub mod Details
pub mod Kinds
pub mod Shared
