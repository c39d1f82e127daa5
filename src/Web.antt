-- ===== src/Web.antt =====
-- internal/web: what the services of the web administration check.
pub mod TunnelConfig
pub mod PortRange
pub mod Sessions
pub mod Admin
