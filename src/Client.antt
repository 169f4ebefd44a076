-- ===== src/Client.antt =====
-- The client library: client/*.go.
pub mod Config
pub mod Dial
pub mod Pool
pub mod Targets
pub mod Serve
pub mod Session
mod Tests
