-- ===== src/Realtime/Udp/Linked.antt =====
-- Every player who is reached at an address has the session of that address: types.rs and the
-- registry of udp_connection.rs.
pub mod Entry
pub mod Joins
pub mod Packets
use kotatsu_backend.Prelude.{
  ℕ, ℕ_eq, zero, suc, ◌≡◌, ◌≢◌, ◌⊎◌, ◌∙◌, ap, sym, subst, refl, String, String_eq, Bool, true,
  false, [], Option, none, some, arith, inl, inr, Option-cases, Bool-cases, Result-cases, ◌==◌,
  eq_of_==, ==_refl,
}
use kotatsu_backend.HashMap.{
  HashMap, lookup, insert, remove, contains_key, lookup-insert, lookup-insert_self, lookup-remove,
}
use kotatsu_backend.Realtime.Types.{
  CoreState, MatchRoom, SocketAddr, ChannelId, ServerReliable, PlayerParams, join_ok, udp,
}
use kotatsu_backend.Realtime.Error.{Error, to_string}
use kotatsu_backend.Realtime.Ticket.{consume_ticket}
use kotatsu_backend.Realtime.Player.{register_player_udp, remove_player}
use kotatsu_backend.Realtime.State.{Server, ClientSession, on_core}
use kotatsu_backend.Realtime.Core.Links.{Link, link_at, KeepsLinks}
use kotatsu_backend.Realtime.Core.Links.Calls.{remove_player-KeepsLinks}
use kotatsu_backend.Realtime.Core.Links.Entering.{
  consume_ticket-matches, register_player_udp-link, register_player_udp-refused, remove_player-link,
}
use kotatsu_backend.Realtime.Udp.Socket.{Codec, send_reliable, send_error}
use kotatsu_backend.Realtime.Udp.Join.{
  JoinEnv, JoinTask, checking, consuming, registering, recording, replying, unregistering, removing,
  done, join_step, join_run, handle_join, take_session, put_session, after_take, drop_session,
}
use kotatsu_backend.Realtime.Udp.Join.Ends.{join_run-done}
use kotatsu_backend.Realtime.Udp.Join.Sections.{send_error-frame, join_step-unregistering}

-- The session of a player at an address.
abbrev pub session_of : String → String → SocketAddr → ChannelId → ClientSession
session_of match_id player_id addr tx = record {
  match_id = match_id;
  player_id = player_id;
  addr = addr;
  tx = tx;
  rx = tx;
}

-- Every player who is reached at an address has the session there, apart from those that `Q` names.
abbrev pub IsLinkedBut : (String → String → SocketAddr → ChannelId → Type 0) → Server → Type 0
IsLinkedBut Q s =
    (m id : String) (a : SocketAddr) (tx : ChannelId)
    → link_at m id s.core.matches ≡ some (some (udp a), tx)
    → (lookup a s.clients ≡ some (session_of m id a tx)) ⊎ Q m id a tx

abbrev pub IsLinked : Server → Type 0
IsLinked s =
    (m id : String) (a : SocketAddr) (tx : ChannelId)
    → link_at m id s.core.matches ≡ some (some (udp a), tx)
    → lookup a s.clients ≡ some (session_of m id a tx)

-- What keeps or forgets the links, and keeps the sessions, keeps this.
pub keeps-IsLinked :
    (s s' : Server)
    → s'.clients ≡ s.clients
    → KeepsLinks s.core.matches s'.core.matches
    → IsLinked s
    → IsLinked s'
keeps-IsLinked s s' c k h m id a tx l = elim (k m id) [
  | inl same ↦ ap (lookup a) c ∙ h m id a tx (sym same ∙ l)
  | inr gone ↦ absurd (ground (arith, gone, l))
]

pub IsLinked-of_eq : (s s' : Server) → s ≡ s' → IsLinked s' → IsLinked s
IsLinked-of_eq s s' e h = subst IsLinked (sym e) h

pub same-IsLinked :
    (s s' : Server)
    → s'.clients ≡ s.clients
    → s'.core.matches ≡ s.core.matches
    → IsLinked s
    → IsLinked s'
same-IsLinked s s' c e = keeps-IsLinked s s' c (λ m id. inl (ap (link_at m id) e))

module _ {F32 : Type 0} (codec : Codec F32) where
  pub send_reliable-frame :
      (accepted : Bool) (addr : SocketAddr) (msg : ServerReliable) (s : Server)
      → let s' = (send_reliable codec accepted addr msg s).1 in
        (s'.clients ≡ s.clients) × (s'.core.matches ≡ s.core.matches)
  unfolding send_reliable
  send_reliable-frame accepted addr msg s = elim (Option-cases (codec.write_reliable msg)) [
    | inl e ↦ ground arith
    | inr (json, e) ↦ ground arith
  ]
