-- ===== src/Realtime/Tests.antt =====
-- Tests of the realtime server: the theorems at small states.
mod ParamTests
mod CoreTests
mod LayoutTests
mod BroadcastTests
mod UdpTests
mod ServingTests
