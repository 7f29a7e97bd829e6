-- ===== src/Realtime/Udp/Handlers.antt =====
-- The handlers of udp_connection.rs for a packet that has arrived. Each runs here without a break
-- between the locks that it takes one after another.
use kotatsu_backend.Prelude.{
  ℕ, ℕ_eq, String, Bool, true, false, List, [], ◌∷◌, none, some, ok, err, nat_eq, if◌then◌else◌,
}
use kotatsu_backend.HashMap.{lookup}
use kotatsu_backend.Realtime.Types.{
  ParamKind, ParamDirection, ClientReliable, ClientDatagram, ServerDatagram, SocketAddr,
  param_applied, error,
}
use kotatsu_backend.Realtime.Error.{to_string}
use kotatsu_backend.Realtime.Room.{update_player_params}
use kotatsu_backend.Realtime.Broadcast.{
  pkt_reliable, pkt_unreliable, broadcast_reliable_udp, broadcast_datagram_udp,
  broadcast_datagram_udp_to_all,
}
use kotatsu_backend.Realtime.State.{Server, send, on_core}
use kotatsu_backend.Realtime.Udp.Socket.{Codec}
use kotatsu_backend.Realtime.Udp.Join.{JoinEnv, handle_join}

-- The clock at its readings, and what a join meets.
pub record Env : Type 0 where
  pub now : ℕ
  pub later : ℕ
  pub now_ms : ℕ
  pub join : JoinEnv

unfoldable pub handle_param_change :
    Env → SocketAddr → ℕ → ParamKind → ParamDirection → Server → Server
handle_param_change env addr seq param direction s = elim (lookup addr s.clients) [
  | none ↦ s
  | some session ↦
      let (r, s') =
        on_core
          (update_player_params session.match_id session.player_id param direction env.now
            env.later)
          s in
      elim r [
        | err e ↦ record s' {
          channels = send session.tx (error "param_update_failed" (to_string e)) s'.channels;
        }
        | ok updated ↦
            broadcast_reliable_udp session.match_id
              (param_applied session.player_id seq updated.params updated.next_param_change_at_unix
                env.now_ms)
              s'
      ]
]

module _ {F32 : Type 0} (codec : Codec F32) (env : Env) (addr : SocketAddr) where
  unfoldable pub handle_reliable_message : List ℕ → Server → Server
  unfolding handle_param_change
  handle_reliable_message payload s = elim (codec.read_reliable payload) [
    | none ↦ s
    | some msg ↦ elim msg [
      | ClientReliable.join token ↦ handle_join codec env.join addr token s
      | ClientReliable.param_change seq param direction ↦
          handle_param_change env addr seq param direction s
    ]
  ]

  -- What is sent on for a datagram, and to whom: `true` for everybody but the sender.
  unfoldable pub relay : String → ClientDatagram F32 → ServerDatagram F32 × Bool
  relay player_id (ClientDatagram.pos seq x y vx vy) =
      (ServerDatagram.pos player_id seq x y vx vy env.now_ms, true)
  relay player_id (ClientDatagram.stage_progress current_stage_index) =
      (ServerDatagram.stage_progress player_id current_stage_index env.now_ms, false)

  unfoldable pub handle_unreliable_message : List ℕ → Server → Server
  unfolding relay
  handle_unreliable_message payload s = elim (codec.read_datagram payload) [
    | none ↦ s
    | some msg ↦ elim (lookup addr s.clients) [
      | none ↦ s
      | some session ↦
          let (out, to_others) = relay session.player_id msg in
          elim (codec.write_datagram out) [
            | none ↦ s
            | some bytes ↦ elim to_others [
              | true ↦ broadcast_datagram_udp session.match_id session.player_id bytes s
              | false ↦ broadcast_datagram_udp_to_all session.match_id bytes s
            ]
          ]
    ]
  ]

  unfoldable pub handle_udp_packet : List ℕ → Server → Server
  unfolding handle_reliable_message handle_unreliable_message
  handle_udp_packet [] s = s
  handle_udp_packet (pkt_type ∷ payload) s =
      if nat_eq pkt_type pkt_reliable
      then handle_reliable_message payload s
      else if nat_eq pkt_type pkt_unreliable
      then handle_unreliable_message payload s
      else s
