-- ===== src/Auth.antt =====
-- internal/auth: password hashes, the credentials and the whitelist, and their tables in the
-- database.
pub mod Hash
pub mod Table
pub mod Users
pub mod Whitelist
