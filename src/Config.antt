-- ===== src/Config.antt =====
-- internal/config: the settings that are kept in the database.
pub mod Limits
