-- ===== src/Realtime/Udp/Outgoing.antt =====
-- The task of `run_udp_server` that sends the waiting reliable messages, every ten milliseconds.
use kotatsu_backend.Prelude.{ℕ_eq, [], ◌∷◌, ◌++◌, Option, none, some, filter_map}
use kotatsu_backend.HashMap.{lookup, insert}
use kotatsu_backend.Realtime.Types.{ServerReliable, SocketAddr}
use kotatsu_backend.Realtime.Broadcast.{pkt_reliable}
use kotatsu_backend.Realtime.State.{Server, ClientSession, Packet, ClientRegistry}
use kotatsu_backend.Realtime.Udp.Socket.{Codec}

module _ {F32 : Type 0} (codec : Codec F32) where
  -- The packet for a message, if it can be written.
  abbrev pub reliable_packet : SocketAddr → ServerReliable → Option Packet
  reliable_packet addr msg = elim (codec.write_reliable msg) [
    | none ↦ none
    | some json ↦ some (record { dest = addr; bytes = pkt_reliable ∷ json })
  ]

  -- The inner loop for one session: what waits is taken in order, and the queue is left empty.
  unfoldable pub flush_session : ClientSession → Server → Server
  flush_session session s = elim (lookup session.rx s.channels) [
    | none ↦ s
    | some queue ↦ record s {
      channels = insert session.rx [] s.channels;
      sent = s.sent ++ filter_map (reliable_packet session.addr) queue;
    }
  ]

  unfoldable pub flush_sessions : ClientRegistry → Server → Server
  unfolding flush_session
  flush_sessions [] s = s
  flush_sessions ((addr, session) ∷ rest) s = flush_sessions rest (flush_session session s)

  -- One round of the task.
  unfoldable pub flush_outgoing : Server → Server
  unfolding flush_sessions
  flush_outgoing s = flush_sessions s.clients s
