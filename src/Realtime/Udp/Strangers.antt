-- ===== src/Realtime/Udp/Strangers.antt =====
-- Packets from an address that has not joined, and joins that are refused: udp_connection.rs.
use kotatsu_backend.Prelude.{
  ℕ, ℕ_eq, ◌≡◌, refl, ap, String, String_eq, List, [], ◌∷◌, none, some, arith, inl, inr, nat_eq,
  eq_of_==, Option-cases, Bool-cases,
}
use kotatsu_backend.HashMap.{lookup}
use kotatsu_backend.Realtime.Types.{SocketAddr, ClientReliable}
use kotatsu_backend.Realtime.Broadcast.{pkt_reliable, pkt_unreliable}
use kotatsu_backend.Realtime.State.{Server}
use kotatsu_backend.Realtime.Udp.Socket.{Codec}
use kotatsu_backend.Realtime.Udp.Handlers.{
  Env, handle_param_change, handle_reliable_message, handle_unreliable_message, handle_udp_packet,
}

module _ {F32 : Type 0} (codec : Codec F32) (env : Env) (addr : SocketAddr) where
  -- The payload reads as a join.
  abbrev pub IsJoin : List ℕ → Type 0
  IsJoin payload =
      (token : String) × (codec.read_reliable payload ≡ some (ClientReliable.join token))

  stranger_reliable :
      (payload : List ℕ) (s : Server)
      → lookup addr s.clients ≡ none
      → ¬ IsJoin payload
      → handle_reliable_message codec env addr payload s ≡ s
  unfolding handle_reliable_message handle_param_change
  stranger_reliable payload s c h = elim (Option-cases (codec.read_reliable payload)) [
    | inl e ↦ ground arith
    | inr (ClientReliable.join token, e) ↦ absurd (h (token, e))
    | inr (ClientReliable.param_change seq kind dir, e) ↦ ground arith
  ]

  stranger_unreliable :
      (payload : List ℕ) (s : Server)
      → lookup addr s.clients ≡ none
      → handle_unreliable_message codec env addr payload s ≡ s
  unfolding handle_unreliable_message
  stranger_unreliable payload s c = elim (Option-cases (codec.read_datagram payload)) [
    | inl e ↦ ground arith
    | inr (msg, e) ↦ ground arith
  ]

  -- A packet from an address without a session changes nothing and is not answered, unless it is of
  -- the reliable type and reads as a join.
  pub handle_udp_packet_stranger :
      (packet : List ℕ) (s : Server)
      → lookup addr s.clients ≡ none
      → ((payload : List ℕ) → packet ≡ pkt_reliable ∷ payload → ¬ IsJoin payload)
      → handle_udp_packet codec env addr packet s ≡ s
  unfolding handle_udp_packet
  handle_udp_packet_stranger [] s c h = refl
  handle_udp_packet_stranger (pkt_type ∷ payload) s c h =
      elim (Bool-cases (nat_eq pkt_type pkt_reliable)) [
        | inl e ↦ ground (
          arith,
          stranger_reliable payload s c
              (h payload (ap (λ t. t ∷ payload) (eq_of_== pkt_type pkt_reliable e))),
        )
        | inr e ↦ elim (Bool-cases (nat_eq pkt_type pkt_unreliable)) [
          | inl e' ↦ ground (arith, stranger_unreliable payload s c)
          | inr e' ↦ ground arith
        ]
      ]
