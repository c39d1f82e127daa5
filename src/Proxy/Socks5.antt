-- ===== src/Proxy/Socks5.antt =====
-- internal/proxy/socks5.go: the SOCKS5 proxy. What a client sends is the list of its bytes, up to
-- where the connection ends or times out.
pub mod Read
pub mod Handle
pub mod Reading
pub mod Guards
