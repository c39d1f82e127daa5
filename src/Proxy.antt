-- ===== src/Proxy.antt =====
-- The proxies: internal/proxy.
pub mod Http
pub mod Limiter
pub mod BindPolicy
pub mod Socks5
