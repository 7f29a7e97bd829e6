-- ===== src/Realtime/Serving/Linked.antt =====
-- What holds between the players of the matches and the sessions of the UDP server in a run of the
-- server: main.rs, with every handler run to its end before the next. Joins that run at the same
-- time are the subject of Udp.Join.Race.
use mathlib.Core.Option
use kotatsu_backend.Realtime.Magicnums.{room_idle_timeout_secs}
use kotatsu_backend.Prelude.{
  ℕ, ℕ_eq, ◌≡◌, ◌∙◌, ap, refl, String, String_eq, List, [], ◌∷◌, some, arith, inl, inr,
  Result-cases,
}
use kotatsu_backend.HashMap.{HashMap, lookup}
use kotatsu_backend.Realtime.Types.{CoreState, MatchRoom, PlayerHandle, SocketAddr, udp}
use kotatsu_backend.Realtime.Layout.{Shuffle}
use kotatsu_backend.Realtime.State.{Server}
use kotatsu_backend.Realtime.Cleanup.{cleanup_round}
use kotatsu_backend.Realtime.Room.{finish_player, start_match_and_snapshot_players}
use kotatsu_backend.Realtime.ControlPlane.{finish_room, start_room, announce_start}
use kotatsu_backend.Realtime.Broadcast.{broadcast_reliable_udp}
use kotatsu_backend.Realtime.Core.Links.{link_of, link_at, room_link, KeepsLinks, KeepsLinks-of_eq}
use kotatsu_backend.Realtime.Core.Links.Calls.{
  create_room-KeepsLinks, issue_join_ticket-KeepsLinks, start_match-KeepsLinks,
  finish_player-KeepsLinks, delete_room-KeepsLinks, delete_stale-KeepsLinks,
}
use kotatsu_backend.Realtime.Udp.Socket.{Codec}
use kotatsu_backend.Realtime.Udp.Outgoing.{flush_outgoing}
use kotatsu_backend.Realtime.Udp.Flush.{flush_sessions-frame}
use kotatsu_backend.Realtime.Udp.Linked.{IsLinked, keeps-IsLinked, same-IsLinked}
use kotatsu_backend.Realtime.Serving.{Request, Event, started, answer, receive, serve_event, serve}
use kotatsu_backend.Realtime.Udp.Linked.Packets.{handle_udp_packet-IsLinked}

start_room-IsLinked :
    (shuffle : Shuffle) (match_id : String) (now now_ms : ℕ) (s : Server)
    → IsLinked s
    → IsLinked (start_room shuffle match_id now now_ms s).1
unfolding start_room announce_start broadcast_reliable_udp
start_room-IsLinked shuffle match_id now now_ms s h =
    let s' = (start_room shuffle match_id now now_ms s).1 in
    let keeps = start_match-KeepsLinks shuffle match_id now s.core in
    elim (Result-cases (start_match_and_snapshot_players shuffle match_id now s.core).0) [
      | inl (t, e) ↦
          keeps-IsLinked s s' (ground arith) (KeepsLinks-of_eq s.core.matches (ground arith) keeps)
            h
      | inr (x, e) ↦
          keeps-IsLinked s s' (ground arith) (KeepsLinks-of_eq s.core.matches (ground arith) keeps)
            h
    ]

finish_room-KeepsLinks :
    (match_id player_id : String) (now : ℕ) (core : CoreState)
    → KeepsLinks core.matches (finish_room match_id player_id now core).1.matches
unfolding finish_room
finish_room-KeepsLinks match_id player_id now core =
    let keeps = finish_player-KeepsLinks match_id player_id now core in
    elim (Result-cases (finish_player match_id player_id now core).0) [
      | inl (t, e) ↦ KeepsLinks-of_eq core.matches (ground arith) keeps
      | inr (x, e) ↦ KeepsLinks-of_eq core.matches (ground arith) keeps
    ]

answer-IsLinked :
    (url : String) (req : Request) (s : Server) → IsLinked s → IsLinked (answer url req s)
unfolding answer
answer-IsLinked url (Request.create_room uuid now) s h =
    keeps-IsLinked s (answer url (Request.create_room uuid now) s) refl
      (create_room-KeepsLinks uuid now s.core) h
answer-IsLinked url Request.list_rooms s h = h
answer-IsLinked url (Request.get_room match_id) s h = h
answer-IsLinked url (Request.issue_join_ticket match_id name uuid token now) s h =
    keeps-IsLinked s (answer url (Request.issue_join_ticket match_id name uuid token now) s) refl
      (issue_join_ticket-KeepsLinks url match_id name uuid token now s.core) h
answer-IsLinked url (Request.start_room shuffle match_id now now_ms) s h =
    start_room-IsLinked shuffle match_id now now_ms s h
answer-IsLinked url (Request.finish_room match_id player_id now) s h =
    keeps-IsLinked s (answer url (Request.finish_room match_id player_id now) s) refl
      (finish_room-KeepsLinks match_id player_id now s.core) h
answer-IsLinked url (Request.delete_room match_id) s h =
    keeps-IsLinked s (answer url (Request.delete_room match_id) s) refl
      (delete_room-KeepsLinks match_id s.core) h

started-IsLinked : IsLinked started
unfolding room_link lookup
started-IsLinked m id a tx l = absurd (ground arith)

link_at-connection :
    (match_id player_id : String) (room : MatchRoom) (p : PlayerHandle) (addr : SocketAddr)
    (matches : HashMap String MatchRoom)
    → lookup match_id matches ≡ some room
    → lookup player_id room.players ≡ some p
    → p.connection ≡ some (udp addr)
    → link_at match_id player_id matches ≡ some (some (udp addr), p.reliable_tx)
unfolding room_link
link_at-connection match_id player_id room p addr matches r l c =
    ap (room_link player_id) r ∙ ap (Option.map link_of) l ∙ ap (λ x. some (x, p.reliable_tx)) c

module _ {F32 : Type 0} (codec : Codec F32) (url : String) where
  serve_event-IsLinked :
      (event : Event) (s : Server) → IsLinked s → IsLinked (serve_event codec url event s)
  unfolding serve_event receive flush_outgoing cleanup_round
  serve_event-IsLinked (Event.request req) s h = answer-IsLinked url req s h
  serve_event-IsLinked (Event.received env addr []) s h = h
  serve_event-IsLinked (Event.received env addr (byte ∷ rest)) s h =
      handle_udp_packet-IsLinked codec env addr (byte ∷ rest) s h
  serve_event-IsLinked Event.recv_failed s h = h
  serve_event-IsLinked Event.flush_tick s h =
      let (c, r) = flush_sessions-frame codec s.clients s in
      same-IsLinked s (serve_event codec url Event.flush_tick s) r (ap (λ x. x.matches) c) h
  serve_event-IsLinked (Event.cleanup_tick now) s h =
      keeps-IsLinked s (serve_event codec url (Event.cleanup_tick now) s) refl
        (delete_stale-KeepsLinks room_idle_timeout_secs now s.core) h

  serve-IsLinked :
      (events : List Event) (s : Server) → IsLinked s → IsLinked (serve codec url events s)
  unfolding serve
  serve-IsLinked [] s h = h
  serve-IsLinked (event ∷ events) s h =
      serve-IsLinked events (serve_event codec url event s) (serve_event-IsLinked event s h)

  -- After any run of handlers one after the other from the server's start, a player of a match whose
  -- connection is an address has the session of that address: with the player's match, id and
  -- channel.
  pub serve_sessions :
      (events : List Event) (match_id player_id : String) (room : MatchRoom) (p : PlayerHandle)
      (addr : SocketAddr)
      → lookup match_id (serve codec url events started).core.matches ≡ some room
      → lookup player_id room.players ≡ some p
      → p.connection ≡ some (udp addr)
      → lookup addr (serve codec url events started).clients
        ≡ some (record {
          match_id = match_id;
          player_id = player_id;
          addr = addr;
          tx = p.reliable_tx;
          rx = p.reliable_tx;
        })
  serve_sessions events match_id player_id room p addr r l c =
      serve-IsLinked events started started-IsLinked match_id player_id addr p.reliable_tx (
        link_at-connection match_id player_id room p addr
          (serve codec url events started).core.matches r l c)
