-- ===== src/Runtime.antt =====
-- internal/runtime: the configuration of the one-process runner, and its start.
pub mod Config
pub mod Overrides
pub mod Validate
pub mod Bindings
pub mod Plan
pub mod Runner
pub mod Shutdown
pub mod Order
