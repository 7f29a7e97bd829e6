-- ===== src/TestClient/Packets.antt =====
-- What the server sends, the client reads, and the other way round: udp_connection.rs and
-- test-client/src/main.rs.
use kotatsu_backend.Prelude.{
  ℕ, ℕ_eq, ◌≡◌, refl, String, List, ◌∷◌, Option, none, some, arith, inl, inr, Option-cases,
}
use kotatsu_backend.Realtime.Types.{SocketAddr, ClientReliable, ServerReliable}
use kotatsu_backend.Realtime.Broadcast.{pkt_reliable}
use kotatsu_backend.Realtime.State.{Server, Packet}
use kotatsu_backend.Realtime.Udp.Socket.{Codec}
use kotatsu_backend.Realtime.Udp.Join.{handle_join}
use kotatsu_backend.Realtime.Udp.Handlers.{Env, handle_reliable_message, handle_udp_packet}
use kotatsu_backend.Realtime.Udp.Outgoing.{reliable_packet}
use kotatsu_backend.TestClient.{encode_packet, parse_reliable, parse_datagram}

-- Where the text that the server writes of a message and the text that the client writes of a join
-- are read by the other side as what was written: the packet that the
-- server makes of a message is read by the client as that message and is no datagram to it, and the
-- packet that the client makes of a join is handled by the server as that join.
pub packets_are_read :
    {F32 D : Type 0} (codec : Codec F32) (env : Env) (addr : SocketAddr) (s : Server)
    (read : List ℕ → Option ServerReliable) (read_datagram : List ℕ → Option D)
    (write : ClientReliable → Option (List ℕ)) (msg : ServerReliable) (packet : Packet)
    (token : String) (bytes : List ℕ)
    → ((json : List ℕ) → codec.write_reliable msg ≡ some json → read json ≡ some msg)
    → ((json : List ℕ)
        → write (ClientReliable.join token) ≡ some json
        → codec.read_reliable json ≡ some (ClientReliable.join token))
    → reliable_packet codec addr msg ≡ some packet
    → encode_packet pkt_reliable (write (ClientReliable.join token)) ≡ some bytes
    → (packet.dest ≡ addr)
      × (parse_reliable read packet.bytes ≡ some msg)
      × (parse_datagram read_datagram packet.bytes ≡ none)
      × (handle_udp_packet codec env addr bytes s ≡ handle_join codec env.join addr token s)
unfolding encode_packet parse_reliable parse_datagram handle_udp_packet handle_reliable_message
packets_are_read codec env addr s read read_datagram write msg packet token bytes client server p
      b =
    elim (Option-cases (codec.write_reliable msg)) [
      | inl e ↦ absurd (ground arith)
      | inr (json, e) ↦ elim (Option-cases (write (ClientReliable.join token))) [
        | inl w ↦ absurd (ground arith)
        | inr (text, w) ↦
            let got = client json e in
            let read = server text w in
            let same : packet ≡ record { dest = addr; bytes = pkt_reliable ∷ json } =
              ground arith in
            let same' : bytes ≡ pkt_reliable ∷ text = ground arith in
            rw (same, same') (refl, got, refl, rw (read, handle_reliable_message) refl)
      ]
    ]
