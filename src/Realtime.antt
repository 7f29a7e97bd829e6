-- ===== src/Realtime.antt =====
-- The realtime server: realtime-split/realtime-server/src.
pub mod Magicnums
pub mod Types
pub mod Params
pub mod Error
pub mod State
pub mod Ticket
pub mod Player
pub mod Layout
pub mod Room
pub mod Broadcast
pub mod Status
pub mod ControlPlane
pub mod Core
pub mod Cleanup
pub mod Udp
pub mod Serving
pub mod Samples
mod Tests
