-- ===== src/Server.antt =====
-- The server library: server/*.go.
pub mod Connection
pub mod Pool
pub mod Dispatch
pub mod Metrics
pub mod Session
pub mod Proxy
pub mod Serving
pub mod Handlers
mod Tests
