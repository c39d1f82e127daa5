-- ===== src/Security.antt =====
-- internal/security: which addresses a proxied connection may go to.
pub mod PrivateIp
pub mod Ssrf
