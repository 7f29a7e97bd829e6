-- ===== src/Realtime/Udp.antt =====
-- realtime-server/src/udp_connection.rs.
pub mod Socket
pub mod Join
pub mod Handlers
pub mod Outgoing
pub mod Calls
pub mod Strangers
pub mod Flush
pub mod Linked
