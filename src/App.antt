-- ===== src/App.antt =====
-- The application: mulery.go and upstreams.go.
pub mod Keys
pub mod Logs
pub mod Paths
pub mod Routes
pub mod Start
pub mod Upstreams
mod Tests
