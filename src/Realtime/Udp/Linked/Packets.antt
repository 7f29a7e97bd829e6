-- ===== src/Realtime/Udp/Linked/Packets.antt =====
-- The handlers of udp_connection.rs for a packet keep every player with a session.
use kotatsu_backend.Prelude.{
  ℕ, ℕ_eq, ◌≡◌, refl, String_eq, List, [], ◌∷◌, arith, inl, inr, nat_eq, Option-cases, Bool-cases,
  Result-cases,
}
use kotatsu_backend.HashMap.{lookup}
use kotatsu_backend.Realtime.Types.{SocketAddr, ParamKind, ParamDirection, ClientReliable}
use kotatsu_backend.Realtime.State.{Server}
use kotatsu_backend.Realtime.Room.{update_player_params}
use kotatsu_backend.Realtime.Broadcast.{
  pkt_reliable, pkt_unreliable, broadcast_reliable_udp, broadcast_datagram_udp,
  broadcast_datagram_udp_to_all,
}
use kotatsu_backend.Realtime.Core.Links.{KeepsLinks-of_eq}
use kotatsu_backend.Realtime.Core.Links.Calls.{update_player_params-KeepsLinks}
use kotatsu_backend.Realtime.Udp.Socket.{Codec}
use kotatsu_backend.Realtime.Udp.Join.{handle_join}
use kotatsu_backend.Realtime.Udp.Handlers.{
  Env, relay, handle_param_change, handle_reliable_message, handle_unreliable_message,
  handle_udp_packet,
}
use kotatsu_backend.Realtime.Udp.Linked.{IsLinked, keeps-IsLinked, same-IsLinked, IsLinked-of_eq}
use kotatsu_backend.Realtime.Udp.Linked.Joins.{handle_join-IsLinked}

handle_param_change-IsLinked :
    (env : Env) (addr : SocketAddr) (seq : ℕ) (kind : ParamKind) (dir : ParamDirection) (s : Server)
    → IsLinked s
    → IsLinked (handle_param_change env addr seq kind dir s)
unfolding handle_param_change broadcast_reliable_udp
handle_param_change-IsLinked env addr seq kind dir s h =
    let s' = handle_param_change env addr seq kind dir s in
    elim (Option-cases (lookup addr s.clients)) [
      | inl e ↦ same-IsLinked s s' (ground arith) (ground arith) h
      | inr (session, e) ↦
          let m = session.match_id in
          let p = session.player_id in
          let keeps = update_player_params-KeepsLinks m p kind dir env.now env.later s.core in
          elim (Result-cases (update_player_params m p kind dir env.now env.later s.core).0) [
            | inl (t, e') ↦
                keeps-IsLinked s s' (ground arith)
                  (KeepsLinks-of_eq s.core.matches (ground arith) keeps) h
            | inr (x, e') ↦
                keeps-IsLinked s s' (ground arith)
                  (KeepsLinks-of_eq s.core.matches (ground arith) keeps) h
          ]
    ]

module _ {F32 : Type 0} (codec : Codec F32) (env : Env) (addr : SocketAddr) where
  handle_unreliable_message-frame :
      (payload : List ℕ) (s : Server)
      → let s' = handle_unreliable_message codec env addr payload s in
        (s'.clients ≡ s.clients) × (s'.core.matches ≡ s.core.matches)
  unfolding handle_unreliable_message broadcast_datagram_udp broadcast_datagram_udp_to_all
  handle_unreliable_message-frame payload s = elim (Option-cases (codec.read_datagram payload)) [
    | inl e ↦ ground arith
    | inr (msg, e) ↦ elim (Option-cases (lookup addr s.clients)) [
      | inl e' ↦ ground arith
      | inr (session, e') ↦
          elim (Option-cases
            (codec.write_datagram (relay codec env addr session.player_id msg).0)) [
              | inl w ↦ ground arith
              | inr (bytes, w) ↦ elim (Bool-cases (relay codec env addr session.player_id msg).1) [
                | inl b ↦ ground arith
                | inr b ↦ ground arith
              ]
            ]
    ]
  ]

  handle_reliable_message-IsLinked :
      (payload : List ℕ) (s : Server)
      → IsLinked s
      → IsLinked (handle_reliable_message codec env addr payload s)
  unfolding handle_reliable_message
  handle_reliable_message-IsLinked payload s h =
      let s' = handle_reliable_message codec env addr payload s in
      elim (Option-cases (codec.read_reliable payload)) [
        | inl e ↦ same-IsLinked s s' (ground arith) (ground arith) h
        | inr (ClientReliable.join token, e) ↦
            IsLinked-of_eq s' (handle_join codec env.join addr token s)
              (rw (e, handle_reliable_message) refl)
              (handle_join-IsLinked codec env.join addr token s h)
        | inr (ClientReliable.param_change seq kind dir, e) ↦
            IsLinked-of_eq s' (handle_param_change env addr seq kind dir s)
              (rw (e, handle_reliable_message) refl)
              (handle_param_change-IsLinked env addr seq kind dir s h)
      ]

  pub handle_udp_packet-IsLinked :
      (packet : List ℕ) (s : Server)
      → IsLinked s
      → IsLinked (handle_udp_packet codec env addr packet s)
  unfolding handle_udp_packet
  handle_udp_packet-IsLinked [] s h = h
  handle_udp_packet-IsLinked (pkt_type ∷ payload) s h =
      let s' = handle_udp_packet codec env addr (pkt_type ∷ payload) s in
      elim (Bool-cases (nat_eq pkt_type pkt_reliable)) [
        | inl e ↦
            IsLinked-of_eq s' (handle_reliable_message codec env addr payload s) (ground arith)
              (handle_reliable_message-IsLinked payload s h)
        | inr e ↦ elim (Bool-cases (nat_eq pkt_type pkt_unreliable)) [
          | inl e' ↦
              let (c, k) = handle_unreliable_message-frame payload s in
              IsLinked-of_eq s' (handle_unreliable_message codec env addr payload s) (ground arith)
                (same-IsLinked s (handle_unreliable_message codec env addr payload s) c k h)
          | inr e' ↦ IsLinked-of_eq s' s (ground arith) h
        ]
      ]
