-- ===== src/TestClient.antt =====
-- test-client/src/main.rs and test-client/src/bin/remote-rtt.rs: how a client makes packets of
-- messages and reads those of the server. The JSON library is an argument.
pub mod Connect
pub mod Messages
pub mod Settings
pub mod Stats
pub mod Run
pub mod Interleaving
pub mod Counts
pub mod Tasks
pub mod OwnEntry
pub mod Isolation
pub mod Verdict
pub mod Passed
pub mod Main
pub mod Pass
pub mod Refusals
pub mod Changes
pub mod Scenario
pub mod Packets
mod Tests
mod MainTests
use mathlib.Core.Option
use kotatsu_backend.Prelude.{ℕ, ℕ_eq, List, [], ◌∷◌, Option, none, some, nat_eq, if◌then◌else◌}
use kotatsu_backend.Realtime.Broadcast.{pkt_reliable, pkt_unreliable}

-- The argument is what `serde_json::to_vec` makes of the message.
unfoldable pub encode_packet : ℕ → Option (List ℕ) → Option (List ℕ)
encode_packet pkt_type json = Option.map (λ bytes. pkt_type ∷ bytes) json

module _ {M : Type 0} (from_slice : List ℕ → Option M) where
  unfoldable pub parse_reliable : List ℕ → Option M
  parse_reliable [] = none
  parse_reliable (pkt_type ∷ payload) =
      if nat_eq pkt_type pkt_reliable then from_slice payload else none

  unfoldable pub parse_datagram : List ℕ → Option M
  parse_datagram [] = none
  parse_datagram (pkt_type ∷ payload) =
      if nat_eq pkt_type pkt_unreliable then from_slice payload else none
