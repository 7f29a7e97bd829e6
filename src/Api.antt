-- ===== src/Api.antt =====
-- The HTTP server: realtime-split/api-server/src/main.rs.
pub mod Documentation
pub mod Types
pub mod Handlers
pub mod Router
pub mod Documented
pub mod Outcomes
pub mod OverServer
pub mod Lifecycle
mod Tests
