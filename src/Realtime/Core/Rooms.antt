-- ===== src/Realtime/Core/Rooms.antt =====
-- The calls about single rooms and about tickets keep `core` valid.
use kotatsu_backend.Prelude.{
  ℕ, ◌≡◌, refl, String, String_eq, false, List, [], ◌∷◌, ◌++◌, none, arith, inl, inr, Option-cases,
  nat_eq, ◌==◌,
}
use kotatsu_backend.HashMap.{lookup, contains_key, lookup-insert_self}
use kotatsu_backend.Realtime.Types.{CoreState, MatchRoom, new_room}
use kotatsu_backend.Realtime.Layout.{Shuffle, assign_randomized_layout}
use kotatsu_backend.Realtime.Ticket.{consume_ticket}
use kotatsu_backend.Realtime.Room.{
  position, finish, finish_player, start_match_and_snapshot_players,
}
use kotatsu_backend.Realtime.ControlPlane.{issued_ticket, create_room, issue_join_ticket}
use kotatsu_backend.Realtime.Core.Valid.{
  IsDistinct, RoomIsValid, IsValid, lookup-RoomIsValid, insert_match-IsValid, insert_ticket-IsValid,
  remove_ticket-IsValid, retimed-RoomIsValid,
}
use kotatsu_backend.Realtime.Core.Layout.{assign_randomized_layout-RoomIsValid}

position-append_none :
    (x id : String) (xs : List String)
    → position x xs ≡ none
    → (id == x) ≡ false
    → position x (xs ++ id ∷ []) ≡ none
unfolding position
position-append_none x id [] h ne = ground arith
position-append_none x id (y ∷ ys) h ne = ground (arith, position-append_none x id ys)

append-IsDistinct :
    (id : String) (xs : List String)
    → IsDistinct xs
    → position id xs ≡ none
    → IsDistinct (xs ++ id ∷ [])
unfolding position
append-IsDistinct id [] d h = (refl, tt)
append-IsDistinct id (x ∷ xs) d h = ground (
  arith,
  append-IsDistinct id xs d.1,
  position-append_none x id xs d.0,
  String_eq.beq_iff x id,
  String_eq.beq_iff id x,
)

finish-RoomIsValid :
    (id : String) (now : ℕ) (room : MatchRoom)
    → RoomIsValid room
    → nat_eq room.started_at_unix 0 ≡ false
    → RoomIsValid (finish id now room).1
unfolding finish
finish-RoomIsValid id now room v h = elim (Option-cases (position id room.finished_player_ids)) [
  | inr (i, e) ↦ rw (e, finish) v
  | inl e ↦
      rw (e, finish)
        (record {
          players_map = v.players_map;
          capacity = v.capacity;
          levels = v.levels;
          finished_once = append-IsDistinct id room.finished_player_ids v.finished_once e;
          lobby_open = λ z. ground arith;
        })
]

pub finish_player-IsValid :
    (match_id id : String) (now : ℕ) (core : CoreState)
    → IsValid core
    → IsValid (finish_player match_id id now core).1
unfolding finish_player
finish_player-IsValid match_id id now core v = elim (Option-cases (lookup match_id core.matches)) [
  | inl e ↦ ground arith
  | inr (room, e) ↦ ground (
    arith,
    finish-RoomIsValid id now room (lookup-RoomIsValid v match_id room e),
    insert_match-IsValid v match_id (finish id now room).1,
  )
]

pub start_match-IsValid :
    (shuffle : Shuffle) (match_id : String) (now : ℕ) (core : CoreState)
    → IsValid core
    → IsValid (start_match_and_snapshot_players shuffle match_id now core).1
unfolding start_match_and_snapshot_players
start_match-IsValid shuffle match_id now core v =
    elim (Option-cases (lookup match_id core.matches)) [
      | inl e ↦ ground arith
      | inr (room, e) ↦
          let r = lookup-RoomIsValid v match_id room e in
          ground (
            arith,
            insert_match-IsValid v match_id room r,
            insert_match-IsValid v match_id (
                assign_randomized_layout shuffle
                  (record room { started_at_unix = now; last_activity_unix = now })),
            assign_randomized_layout-RoomIsValid shuffle
                (record room { started_at_unix = now; last_activity_unix = now }),
            retimed-RoomIsValid now now r,
            r.lobby_open,
          )
    ]

pub create_room-IsValid :
    (uuid : String) (now : ℕ) (core : CoreState)
    → IsValid core
    → IsValid (create_room uuid now core).1
unfolding create_room new_room
create_room-IsValid uuid now core v = insert_match-IsValid v _ (new_room now) (record {
  players_map = tt;
  capacity = omega arith;
  levels = tt;
  finished_once = tt;
  lobby_open = λ _. refl;
})

pub issue_join_ticket-IsValid :
    (url match_id name uuid token : String) (now : ℕ) (core : CoreState)
    → IsValid core
    → IsValid (issue_join_ticket url match_id name uuid token now core).1
unfolding issue_join_ticket contains_key
issue_join_ticket-IsValid url match_id name uuid token now core v =
    elim (Option-cases (lookup match_id core.matches)) [
      | inl e ↦ ground arith
      | inr (room, e) ↦
          let r = lookup-RoomIsValid v match_id room e in
          let room' = record room { last_activity_unix = now } in
          let w =
            insert_match-IsValid v match_id room'
              (retimed-RoomIsValid room.started_at_unix now r r.lobby_open) in
          ground (
            arith,
            insert_ticket-IsValid w token (issued_ticket match_id name uuid now),
            lookup-insert_self match_id room' core.matches,
          )
    ]

pub consume_ticket-IsValid :
    (token : String) (now : ℕ) (core : CoreState)
    → IsValid core
    → IsValid (consume_ticket token now core).1
unfolding consume_ticket
consume_ticket-IsValid token now core v = ground (arith, remove_ticket-IsValid v token)
