-- ===== src/Tunnel.antt =====
-- The tunnel packages: internal/tunnel.
pub mod Frames
pub mod Ports
pub mod Pending
pub mod Store
pub mod Routes
pub mod UdpSessions
