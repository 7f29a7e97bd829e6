-- ===== src/Realtime/Udp/Socket.antt =====
-- Packets and the text format: the two send functions of udp_connection.rs, and the interface of
-- the JSON library.
use kotatsu_backend.Prelude.{ℕ, String, Bool, true, false, List, [], ◌∷◌, ◌++◌, Option, none, some}
use kotatsu_backend.Realtime.Types.{
  ClientReliable, ServerReliable, ClientDatagram, ServerDatagram, SocketAddr, error,
}
use kotatsu_backend.Realtime.Broadcast.{pkt_reliable}
use kotatsu_backend.Realtime.State.{Server}

-- `serde_json::from_slice` and `serde_json::to_vec` at the types of the protocol; `none` is an error.
pub record Codec (F32 : Type 0) : Type 0 where
  pub read_reliable : List ℕ → Option ClientReliable
  pub read_datagram : List ℕ → Option (ClientDatagram F32)
  pub write_reliable : ServerReliable → Option (List ℕ)
  pub write_datagram : ServerDatagram F32 → Option (List ℕ)

abbrev pub put_packet : SocketAddr → List ℕ → Server → Server
put_packet addr bytes s = record s { sent = s.sent ++ record { dest = addr; bytes = bytes } ∷ [] }

module _ {F32 : Type 0} (codec : Codec F32) where
  -- The Boolean argument is whether the socket accepts the packet, the result whether all went well.
  unfoldable pub send_reliable : Bool → SocketAddr → ServerReliable → Server → Bool × Server
  send_reliable accepted addr msg s = elim (codec.write_reliable msg) [
    | none ↦ (false, s)
    | some json ↦ elim accepted [
      | true ↦ (true, put_packet addr (pkt_reliable ∷ json) s)
      | false ↦ (false, s)
    ]
  ]

  unfoldable pub send_error : Bool → SocketAddr → String → String → Server → Server
  unfolding send_reliable
  send_error accepted addr code message s = (send_reliable accepted addr (error code message) s).1
