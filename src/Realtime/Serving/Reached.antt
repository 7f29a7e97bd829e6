-- ===== src/Realtime/Serving/Reached.antt =====
-- What holds of the rooms and tickets in a run of the server.
use kotatsu_backend.Prelude.{ℕ, ◌≡◌, String, List, [], ◌∷◌, arith, inl, inr, Result-cases}
use kotatsu_backend.Realtime.Types.{CoreState}
use kotatsu_backend.Realtime.Layout.{Shuffle}
use kotatsu_backend.Realtime.State.{Server}
use kotatsu_backend.Realtime.Cleanup.{cleanup_round}
use kotatsu_backend.Realtime.Room.{finish_player, start_match_and_snapshot_players}
use kotatsu_backend.Realtime.ControlPlane.{finish_room, start_room, announce_start}
use kotatsu_backend.Realtime.Broadcast.{broadcast_reliable_udp}
use kotatsu_backend.Realtime.Core.{Call, step, run}
use kotatsu_backend.Realtime.Core.Valid.{IsValid}
use kotatsu_backend.Realtime.Core.Reach.{step-IsValid, run-default_core-IsValid}
use kotatsu_backend.Realtime.Udp.Socket.{Codec}
use kotatsu_backend.Realtime.Udp.Calls.{handle_udp_packet-IsValid}
use kotatsu_backend.Realtime.Udp.Outgoing.{flush_outgoing}
use kotatsu_backend.Realtime.Udp.Flush.{flush_sessions-frame}
use kotatsu_backend.Realtime.Serving.{Request, Event, started, answer, receive, serve_event, serve}

-- Starting a room leaves in `core` what its first section leaves there.
start_room-core :
    (shuffle : Shuffle) (match_id : String) (now now_ms : ℕ) (s : Server)
    → (start_room shuffle match_id now now_ms s).1.core
      ≡ step s.core (Call.start_match shuffle match_id now)
unfolding start_room announce_start broadcast_reliable_udp step
start_room-core shuffle match_id now now_ms s =
    elim (Result-cases (start_match_and_snapshot_players shuffle match_id now s.core).0) [
      | inl (t, e) ↦ ground arith
      | inr (x, e) ↦ ground arith
    ]

finish_room-core :
    (match_id player_id : String) (now : ℕ) (core : CoreState)
    → (finish_room match_id player_id now core).1
      ≡ step core (Call.finish_player match_id player_id now)
unfolding finish_room step
finish_room-core match_id player_id now core =
    elim (Result-cases (finish_player match_id player_id now core).0) [
      | inl (t, e) ↦ ground arith
      | inr (x, e) ↦ ground arith
    ]

answer-IsValid :
    (url : String) (req : Request) (s : Server) → IsValid s.core → IsValid (answer url req s).core
unfolding answer step
answer-IsValid url (Request.create_room uuid now) s v =
    step-IsValid s.core (Call.create_room uuid now) v
answer-IsValid url Request.list_rooms s v = v
answer-IsValid url (Request.get_room match_id) s v = v
answer-IsValid url (Request.issue_join_ticket match_id name uuid token now) s v =
    step-IsValid s.core (Call.issue_join_ticket url match_id name uuid token now) v
answer-IsValid url (Request.start_room shuffle match_id now now_ms) s v =
    rw (start_room-core shuffle match_id now now_ms s)
      (step-IsValid s.core (Call.start_match shuffle match_id now) v)
answer-IsValid url (Request.finish_room match_id player_id now) s v =
    rw (finish_room-core match_id player_id now s.core)
      (step-IsValid s.core (Call.finish_player match_id player_id now) v)
answer-IsValid url (Request.delete_room match_id) s v =
    step-IsValid s.core (Call.delete_room match_id) v

module _ {F32 : Type 0} (codec : Codec F32) (url : String) where
  serve_event-IsValid :
      (event : Event) (s : Server) → IsValid s.core → IsValid (serve_event codec url event s).core
  unfolding serve_event receive flush_outgoing cleanup_round
  serve_event-IsValid (Event.request req) s v = answer-IsValid url req s v
  serve_event-IsValid (Event.received env addr []) s v = v
  serve_event-IsValid (Event.received env addr (byte ∷ rest)) s v =
      handle_udp_packet-IsValid codec env addr (byte ∷ rest) s v
  serve_event-IsValid Event.recv_failed s v = v
  serve_event-IsValid Event.flush_tick s v = rw ((flush_sessions-frame codec s.clients s).0) v
  serve_event-IsValid (Event.cleanup_tick now) s v =
      unfold step in step-IsValid s.core (Call.delete_stale_lobby_rooms _ now) v

  serve-IsValid_from :
      (events : List Event) (s : Server) → IsValid s.core → IsValid (serve codec url events s).core
  unfolding serve
  serve-IsValid_from [] s v = v
  serve-IsValid_from (event ∷ events) s v =
      serve-IsValid_from events (serve_event codec url event s) (serve_event-IsValid event s v)

  -- In every state that a run of handlers one after the other reaches from the start, whatever calls
  -- of the control plane, packets, failed receives and rounds of the two tasks come and in whatever
  -- order, the rooms and tickets are valid: at most four players to a room, with distinct ids and levels in range,
  -- finished once each and only after the start, and tickets only for rooms that exist.
  pub serve-IsValid : (events : List Event) → IsValid (serve codec url events started).core
  unfolding run
  serve-IsValid events = serve-IsValid_from events started (run-default_core-IsValid [])
