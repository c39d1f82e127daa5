-- ===== src/Tests.antt =====
-- The theorems at concrete inputs, a module for each part of the program.
mod BindPolicy
mod Applied
mod Auth
mod Cache
mod Database
mod Frames
mod Http
mod Limiter
mod Limits
mod Pending
mod Ports
mod Routes
mod Socks5
mod Runtime
mod Security
mod Store
mod Udp
mod Web
