-- ===== src/RemoteRtt.antt =====
-- test-client/src/bin/remote-rtt.rs: the tool that measures how long a datagram takes from one
-- client over the server to another.
pub mod Numbers
pub mod Config
pub mod CommandLine
pub mod Bounds
pub mod Decimal
pub mod Arguments
pub mod Join
pub mod Joined
pub mod Measure
pub mod Samples
pub mod Probes
pub mod Summary
pub mod Reports
pub mod Main
pub mod Totals
mod Tests
mod MainTests
