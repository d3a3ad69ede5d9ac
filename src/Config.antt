-- ===== src/Config.antt =====
-- internal/config: the settings that `ValidateStatic` reads, the validation itself, and
-- the loading of a file with the environment over it.
pub mod Types
pub mod Validator
pub mod Accepts
pub mod Loader
pub mod Loading
