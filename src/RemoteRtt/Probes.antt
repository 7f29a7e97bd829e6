-- ===== src/RemoteRtt/Probes.antt =====
-- A probe of remote-rtt on its way: made by one client, sent on by the server's handler of UDP
-- packets, and heard by the other client.
use mathlib.Core.List.{Mem, mem-append_right, mem-map_of_mem}
use kotatsu_backend.Prelude.{
  ℕ, ℕ_eq, ◌≡◌, ◌≢◌, refl, ap, String, String_eq, List, ◌∷◌, ◌++◌, map, Option, some, ok, arith,
  ==_refl,
}
use kotatsu_backend.HashMap.{lookup, IsMap}
use kotatsu_backend.Realtime.Types
use kotatsu_backend.Realtime.Types.{SocketAddr, MatchRoom, PlayerHandle, udp}
use kotatsu_backend.Realtime.State.{Server, ClientSession, Packet}
use kotatsu_backend.Realtime.Broadcast.{pkt_unreliable}
use kotatsu_backend.Realtime.Broadcast.Datagrams.{broadcast_datagram_udp_lem}
use kotatsu_backend.Realtime.Udp.Socket.{Codec}
use kotatsu_backend.Realtime.Udp.Handlers.{Env, handle_udp_packet, handle_unreliable_message, relay}
use kotatsu_backend.TestClient.{encode_packet, parse_datagram}
use kotatsu_backend.TestClient.Messages.{ClientDatagram, ServerDatagram}
use kotatsu_backend.RemoteRtt.Measure.{Arrival, encoded_pos, is_probe, listen}

-- The sender has a session and the receiver is another connected player of its match, and the two
-- sides read what the other writes. Then the probe that the client makes is sent on by the server
-- to the receiver's address, in a packet that the receiver's loop takes for that probe, with the time
-- at which it comes in.
pub probe_is_heard :
    {F32 F64 : Type 0} (codec : Codec F32) (env : Env) (addr : SocketAddr) (s : Server)
    (session : ClientSession) (room : MatchRoom) (id : String) (p : PlayerHandle)
    (dest : SocketAddr) (read : List ℕ → Option (ServerDatagram F32))
    (write : ClientDatagram F32 → Option (List ℕ)) (f32_of_u64 : ℕ → F32) (z : F32) (seq : ℕ)
    (text json : List ℕ) (elapsed : F64) (rest : List (Arrival F64))
    → lookup addr s.clients ≡ some session
    → lookup session.match_id s.core.matches ≡ some room
    → IsMap room.players
    → lookup id room.players ≡ some p
    → p.connection ≡ some (udp dest)
    → id ≢ session.player_id
    → let x = f32_of_u64 seq in
      write (ClientDatagram.pos seq x z z z) ≡ some text
      → codec.read_datagram text ≡ some (Types.ClientDatagram.pos seq x z z z)
      → codec.write_datagram (Types.ServerDatagram.pos session.player_id seq x z z z env.now_ms)
        ≡ some json
      → read json ≡ some (ServerDatagram.pos session.player_id seq x z z z env.now_ms)
      → let probe = pkt_unreliable ∷ text in
        let sent : Packet = record { dest = dest; bytes = pkt_unreliable ∷ json } in
        (encoded_pos f32_of_u64 z write seq ≡ some probe)
        × Mem sent (handle_udp_packet codec env addr probe s).sent
        × (listen read session.player_id seq (Arrival.arrived sent.bytes elapsed ∷ rest)
            ≡ ok (some elapsed))
unfolding encoded_pos encode_packet handle_udp_packet handle_unreliable_message relay listen
    is_probe parse_datagram
probe_is_heard codec env addr s session room id p dest read write f32_of_u64 z seq text json elapsed
      rest c r m l to n w seen out heard =
    let (addrs, forwarded, among, only) =
      broadcast_datagram_udp_lem session.match_id session.player_id json s room id p dest r m l to
        n in
    let packets : SocketAddr → Packet = λ a. record { dest = a; bytes = pkt_unreliable ∷ json } in
    let handled : (handle_unreliable_message codec env addr text s).sent
        ≡ s.sent ++ map packets addrs =
      rw (seen, c, out, handle_unreliable_message) (ap (λ (t : Server). t.sent) forwarded) in
    (
      rw (w, encoded_pos) refl,
      rw handled (mem-append_right s.sent (mem-map_of_mem packets among)),
      rw (heard, is_probe) (ground (arith, ==_refl seq, ==_refl session.player_id)),
    )
