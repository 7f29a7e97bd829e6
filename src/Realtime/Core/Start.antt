-- ===== src/Realtime/Core/Start.antt =====
-- Starting a match: `start_match_and_snapshot_players` of room.rs and `start_room` of
-- grpc_service.rs.
use kotatsu_backend.Prelude.{
  ℕ, ℕ_eq, ◌≡◌, ◌≢◌, refl, sym, ◌∙◌, String, String_eq, some, arith, ok, map, ◌++◌,
}
use kotatsu_backend.HashMap.{lookup, insert, insert_same, lookup-insert_self}
use kotatsu_backend.Realtime.Types.{MatchRoom, ChannelId, match_started}
use kotatsu_backend.Realtime.State.{Server}
use mathlib.Core.Option
use kotatsu_backend.Realtime.Layout.{Shuffle, assign_randomized_layout, snapshot_players}
use kotatsu_backend.Realtime.Broadcast.Delivery.{copies, broadcast_reliable_udp_lem}
use kotatsu_backend.Realtime.Broadcast.{broadcast_reliable_udp, senders}
use kotatsu_backend.Realtime.Room.{start_match_and_snapshot_players}
use kotatsu_backend.Realtime.ControlPlane.{start_room}

-- A match that has started is not started again: another start answers with the time of the first,
-- and neither changes the state nor sends a message to anybody.
pub start_room_again :
    (shuffle : Shuffle) (match_id : String) (now now_ms : ℕ) (s : Server) (room : MatchRoom)
    → lookup match_id s.core.matches ≡ some room
    → room.started_at_unix ≢ 0
    → start_room shuffle match_id now now_ms s
      ≡ (ok (record { match_id = match_id; started_at_unix = room.started_at_unix }), s)
unfolding start_room start_match_and_snapshot_players
start_room_again shuffle match_id now now_ms s room e h =
    ground (arith, insert_same match_id room s.core.matches e)

-- The room that the first start leaves.
pub start_room-lookup :
    (shuffle : Shuffle) (match_id : String) (now now_ms : ℕ) (s : Server) (room : MatchRoom)
    → lookup match_id s.core.matches ≡ some room
    → room.started_at_unix ≡ 0
    → lookup match_id (start_room shuffle match_id now now_ms s).1.core.matches
      ≡ some (
          assign_randomized_layout shuffle
            (record room { started_at_unix = now; last_activity_unix = now }))
unfolding start_room start_match_and_snapshot_players broadcast_reliable_udp
start_room-lookup shuffle match_id now now_ms s room e h = ground (
  arith,
  lookup-insert_self match_id
      (assign_randomized_layout shuffle
        (record room { started_at_unix = now; last_activity_unix = now }))
      s.core.matches,
)

pub assign_randomized_layout-started :
    (shuffle : Shuffle) (room : MatchRoom)
    → (assign_randomized_layout shuffle room).started_at_unix ≡ room.started_at_unix
unfolding assign_randomized_layout
assign_randomized_layout-started shuffle room = refl

-- A lobby that is started while the clock is not at zero stays started: any later start is answered
-- with the time of the first one and changes nothing.
pub start_room_twice :
    (shuffle shuffle' : Shuffle) (match_id : String) (now now_ms later later_ms : ℕ) (s : Server)
    (room : MatchRoom)
    → lookup match_id s.core.matches ≡ some room
    → room.started_at_unix ≡ 0
    → now ≢ 0
    → let s' = (start_room shuffle match_id now now_ms s).1 in
      start_room shuffle' match_id later later_ms s'
      ≡ (ok (record { match_id = match_id; started_at_unix = now }), s')
start_room_twice shuffle shuffle' match_id now now_ms later later_ms s room e h n =
    let room' = record room { started_at_unix = now; last_activity_unix = now } in
    let started = assign_randomized_layout-started shuffle room' in
    rw started at (
      start_room_again shuffle' match_id later later_ms (start_room shuffle match_id now now_ms s).1
        (assign_randomized_layout shuffle room')
        (start_room-lookup shuffle match_id now now_ms s room e h) (λ z. n (sym started ∙ z)))

-- The room as the first start leaves it.
abbrev pub started_room : Shuffle → ℕ → MatchRoom → MatchRoom
started_room shuffle now room =
    assign_randomized_layout shuffle
      (record room { started_at_unix = now; last_activity_unix = now })

pub start_room_first :
    (shuffle : Shuffle) (match_id : String) (now now_ms : ℕ) (s : Server) (room : MatchRoom)
    → lookup match_id s.core.matches ≡ some room
    → room.started_at_unix ≡ 0
    → let room' = started_room shuffle now room in
      start_room shuffle match_id now now_ms s ≡ (
        ok (record { match_id = match_id; started_at_unix = now }),
        broadcast_reliable_udp match_id
            (match_started match_id now (snapshot_players room') now_ms)
            (record s { core = record s.core { matches = insert match_id room' s.core.matches } }),
      )
unfolding start_room start_match_and_snapshot_players
start_room_first shuffle match_id now now_ms s room e h = ground (
  arith,
  assign_randomized_layout-started shuffle
      (record room { started_at_unix = now; last_activity_unix = now }),
)

senders_found :
    (match_id : String) (s : Server) (room : MatchRoom)
    → lookup match_id s.core.matches ≡ some room
    → senders match_id s ≡ map (λ e. e.1.reliable_tx) room.players
unfolding senders
senders_found match_id s room e = ground arith

-- The first start of a match answers with the time of the clock and queues, for each player of the
-- room, one `match_started` with that time and the players as the layout has set them; every other
-- queue stays.
pub start_room_announces :
    (shuffle : Shuffle) (match_id : String) (now now_ms : ℕ) (s : Server) (room : MatchRoom)
    (ch : ChannelId)
    → lookup match_id s.core.matches ≡ some room
    → room.started_at_unix ≡ 0
    → let (r, s') = start_room shuffle match_id now now_ms s in
      let room' = started_room shuffle now room in
      (r ≡ ok (record { match_id = match_id; started_at_unix = now }))
      × (lookup ch s'.channels
          ≡ Option.map
              (λ queue.
                queue
                ++ copies ch
                    (match_started match_id now (snapshot_players room') now_ms)
                    (map (λ e. e.1.reliable_tx) room'.players))
              (lookup ch s.channels))
start_room_announces shuffle match_id now now_ms s room ch e h =
    let room' = started_room shuffle now room in
    let msg = match_started match_id now (snapshot_players room') now_ms in
    let s1 = record s { core = record s.core { matches = insert match_id room' s.core.matches } } in
    rw (start_room_first shuffle match_id now now_ms s room e h) (
      refl,
      rw (senders_found match_id s1 room' (lookup-insert_self match_id room' s.core.matches)) at
          (broadcast_reliable_udp_lem match_id msg ch s1).0,
    )
