-- ===== src/Realtime/Broadcast.antt =====
-- The broadcasts of realtime-server/src/room.rs.
pub mod Delivery
pub mod Datagrams
use kotatsu_backend.Prelude.{
  ℕ, String, String_eq, Bool, true, false, List, [], ◌∷◌, ◌++◌, Option, none, some, map, filter_map,
  if◌then◌else◌, ◌==◌,
}
use kotatsu_backend.HashMap.{lookup}
use kotatsu_backend.Realtime.Types.{
  PlayerHandle, PlayerConnection, ServerReliable, SocketAddr, ChannelId, udp,
}
use kotatsu_backend.Realtime.State.{Server, Packet, send_all}

-- The senders of a room, or none where the room is gone.
unfoldable pub senders : String → Server → List ChannelId
senders match_id s = elim (lookup match_id s.core.matches) [
  | none ↦ []
  | some room ↦ map (λ e. e.1.reliable_tx) room.players
]

unfoldable pub broadcast_reliable_udp : String → ServerReliable → Server → Server
unfolding senders
broadcast_reliable_udp match_id msg s = record s {
  channels = send_all (senders match_id s) msg s.channels;
}

abbrev pub udp_addr : PlayerHandle → Option SocketAddr
udp_addr p = elim p.connection [ none ↦ none | some c ↦ elim c [ udp addr ↦ some addr ] ]

-- The addresses of a room's players other than the sender.
unfoldable pub other_addrs : String → String → Server → List SocketAddr
other_addrs match_id sender_player_id s = elim (lookup match_id s.core.matches) [
  | none ↦ []
  | some room ↦
      filter_map (λ e. if e.0 == sender_player_id then none else udp_addr e.1) room.players
]

unfoldable pub all_addrs : String → Server → List SocketAddr
all_addrs match_id s = elim (lookup match_id s.core.matches) [
  | none ↦ []
  | some room ↦ filter_map (λ e. udp_addr e.1) room.players
]

abbrev pub pkt_reliable : ℕ
pkt_reliable = 0x01

abbrev pub pkt_unreliable : ℕ
pkt_unreliable = 0x02

-- `socket.send_to` for each address; what it returns is ignored.
abbrev pub send_to_all : List SocketAddr → List ℕ → Server → Server
send_to_all addrs payload s = record s {
  sent = s.sent ++ map (λ addr. record { dest = addr; bytes = pkt_unreliable ∷ payload }) addrs;
}

-- The socket of the server is set before the first packet is received.
unfoldable pub broadcast_datagram_udp : String → String → List ℕ → Server → Server
unfolding other_addrs
broadcast_datagram_udp match_id sender_player_id payload s =
    send_to_all (other_addrs match_id sender_player_id s) payload s

unfoldable pub broadcast_datagram_udp_to_all : String → List ℕ → Server → Server
unfolding all_addrs
broadcast_datagram_udp_to_all match_id payload s = send_to_all (all_addrs match_id s) payload s
