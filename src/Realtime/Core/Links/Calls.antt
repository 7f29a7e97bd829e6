-- ===== src/Realtime/Core/Links/Calls.antt =====
-- The calls that keep or forget where the players are reached: all but the registration.
use kotatsu_backend.Prelude.{
  ℕ, ℕ_eq, ◌≡◌, refl, String, String_eq, List, [], ◌∷◌, arith, inl, inr, Option-cases, Bool-cases,
  Result-cases, nat_eq, map, filter, length, leb, subst, sym,
}
use kotatsu_backend.Prelude.Order.{String_order}
use kotatsu_backend.Sort.{sort_by}
use kotatsu_backend.HashMap.{HashMap, lookup, insert, remove, contains_key}
use kotatsu_backend.Realtime.Types.{CoreState, MatchRoom, ParamKind, ParamDirection, new_room}
use kotatsu_backend.Realtime.Magicnums.{room_max_players}
use kotatsu_backend.Realtime.Params.{apply_param_change}
use kotatsu_backend.Realtime.Layout.{Shuffle, assign_randomized_layout, range}
use kotatsu_backend.Realtime.Player.{remove_player}
use kotatsu_backend.Realtime.Room.{
  position, finish, finish_player, start_match_and_snapshot_players, remove_matches, is_stale,
  delete_stale_lobby_rooms, update_player_params,
}
use kotatsu_backend.Realtime.ControlPlane.{create_room, issue_join_ticket, delete_room}
use kotatsu_backend.Realtime.Core.Links.{
  KeepsLinks, KeepsPlayers, KeepsLinks-trans, KeepsLinks-refl, KeepsLinks-of_eq, KeepsPlayers-refl,
  insert-KeepsLinks, empty-KeepsLinks, remove-KeepsLinks, remove-KeepsPlayers, write-KeepsPlayers,
  assign_from-link,
}

pub create_room-KeepsLinks :
    (uuid : String) (now : ℕ) (core : CoreState)
    → KeepsLinks core.matches (create_room uuid now core).1.matches
unfolding create_room new_room
create_room-KeepsLinks uuid now core = empty-KeepsLinks _ (new_room now) core.matches refl

pub issue_join_ticket-KeepsLinks :
    (url match_id name uuid token : String) (now : ℕ) (core : CoreState)
    → KeepsLinks core.matches (issue_join_ticket url match_id name uuid token now core).1.matches
unfolding issue_join_ticket
issue_join_ticket-KeepsLinks url match_id name uuid token now core =
    elim (Option-cases (lookup match_id core.matches)) [
      | inl e ↦ KeepsLinks-of_eq core.matches (ground arith) (KeepsLinks-refl core.matches)
      | inr (room, e) ↦ elim (Bool-cases (leb room_max_players (length room.players))) [
        | inl full ↦ KeepsLinks-of_eq core.matches (ground arith) (KeepsLinks-refl core.matches)
        | inr free ↦ KeepsLinks-of_eq core.matches (ground arith) (
            insert-KeepsLinks match_id room (record room { last_activity_unix = now }) core.matches
              e (KeepsPlayers-refl room.players))
      ]
    ]

assign_randomized_layout-KeepsPlayers :
    (shuffle : Shuffle) (room : MatchRoom)
    → KeepsPlayers room.players (assign_randomized_layout shuffle room).players
unfolding assign_randomized_layout
assign_randomized_layout-KeepsPlayers shuffle room id = inl (
    assign_from-link shuffle (shuffle 0 (range 0 room_max_players)) 0
      (sort_by (λ id. id) (map (λ e. e.0) room.players)) room.players id)

pub start_match-KeepsLinks :
    (shuffle : Shuffle) (match_id : String) (now : ℕ) (core : CoreState)
    → KeepsLinks core.matches (start_match_and_snapshot_players shuffle match_id now core).1.matches
unfolding start_match_and_snapshot_players
start_match-KeepsLinks shuffle match_id now core =
    elim (Option-cases (lookup match_id core.matches)) [
      | inl e ↦ KeepsLinks-of_eq core.matches (ground arith) (KeepsLinks-refl core.matches)
      | inr (room, e) ↦ elim (Bool-cases (nat_eq room.started_at_unix 0)) [
        | inl z ↦
            let timed = record room { started_at_unix = now; last_activity_unix = now } in
            KeepsLinks-of_eq core.matches (ground arith) (
              insert-KeepsLinks match_id room (assign_randomized_layout shuffle timed) core.matches
                e (assign_randomized_layout-KeepsPlayers shuffle timed))
        | inr z ↦
            KeepsLinks-of_eq core.matches (ground arith)
              (insert-KeepsLinks match_id room room core.matches e (KeepsPlayers-refl room.players))
      ]
    ]

finish-players :
    (id : String) (now : ℕ) (room : MatchRoom) → (finish id now room).1.players ≡ room.players
unfolding finish
finish-players id now room = elim (Option-cases (position id room.finished_player_ids)) [
  | inl e ↦ ground arith
  | inr (i, e) ↦ ground arith
]

pub finish_player-KeepsLinks :
    (match_id id : String) (now : ℕ) (core : CoreState)
    → KeepsLinks core.matches (finish_player match_id id now core).1.matches
unfolding finish_player
finish_player-KeepsLinks match_id id now core = elim (Option-cases (lookup match_id core.matches)) [
  | inl e ↦ KeepsLinks-of_eq core.matches (ground arith) (KeepsLinks-refl core.matches)
  | inr (room, e) ↦ elim (Bool-cases (nat_eq room.started_at_unix 0)) [
    | inl z ↦ KeepsLinks-of_eq core.matches (ground arith) (KeepsLinks-refl core.matches)
    | inr z ↦ elim (Bool-cases (contains_key id room.players)) [
      | inl c ↦ KeepsLinks-of_eq core.matches (ground arith) (
          insert-KeepsLinks match_id room (finish id now room).1 core.matches e (
            subst (KeepsPlayers room.players) (sym (finish-players id now room))
              (KeepsPlayers-refl room.players)))
      | inr c ↦ KeepsLinks-of_eq core.matches (ground arith) (KeepsLinks-refl core.matches)
    ]
  ]
]

pub delete_room-KeepsLinks :
    (match_id : String) (core : CoreState)
    → KeepsLinks core.matches (delete_room match_id core).1.matches
unfolding delete_room
delete_room-KeepsLinks match_id core = elim (Bool-cases (contains_key match_id core.matches)) [
  | inl e ↦ KeepsLinks-of_eq core.matches (ground arith) (remove-KeepsLinks match_id core.matches)
  | inr e ↦ KeepsLinks-of_eq core.matches (ground arith) (KeepsLinks-refl core.matches)
]

remove_matches-KeepsLinks :
    (ids : List String) (matches : HashMap String MatchRoom)
    → KeepsLinks matches (remove_matches ids matches)
unfolding remove_matches
remove_matches-KeepsLinks [] matches = KeepsLinks-refl matches
remove_matches-KeepsLinks (x ∷ ids) matches =
    KeepsLinks-trans matches (remove x matches) (remove_matches ids (remove x matches))
      (remove-KeepsLinks x matches) (remove_matches-KeepsLinks ids (remove x matches))

delete_stale-matches :
    (timeout now : ℕ) (core : CoreState)
    → (delete_stale_lobby_rooms timeout now core).1.matches
      ≡ remove_matches
          (map (λ e. e.0) (filter (λ e. is_stale now timeout e.1) core.matches))
          core.matches
unfolding delete_stale_lobby_rooms remove_matches
delete_stale-matches timeout now core = ground arith

pub delete_stale-KeepsLinks :
    (timeout now : ℕ) (core : CoreState)
    → KeepsLinks core.matches (delete_stale_lobby_rooms timeout now core).1.matches
delete_stale-KeepsLinks timeout now core =
    KeepsLinks-of_eq core.matches (delete_stale-matches timeout now core)
      (remove_matches-KeepsLinks _ core.matches)

pub remove_player-KeepsLinks :
    (match_id id : String) (now : ℕ) (core : CoreState)
    → KeepsLinks core.matches (remove_player match_id id now core).matches
unfolding remove_player
remove_player-KeepsLinks match_id id now core = elim (Option-cases (lookup match_id core.matches)) [
  | inl e ↦ KeepsLinks-of_eq core.matches (ground arith) (KeepsLinks-refl core.matches)
  | inr (room, e) ↦ KeepsLinks-of_eq core.matches (ground arith) (
      insert-KeepsLinks match_id room
        (record room { players = remove id room.players; last_activity_unix = now }) core.matches e
        (remove-KeepsPlayers id room.players))
]

pub update_player_params-KeepsLinks :
    (match_id id : String) (kind : ParamKind) (dir : ParamDirection) (now later : ℕ)
    (core : CoreState)
    → KeepsLinks core.matches (update_player_params match_id id kind dir now later core).1.matches
unfolding update_player_params
update_player_params-KeepsLinks match_id id kind dir now later core =
    elim (Option-cases (lookup match_id core.matches)) [
      | inl e ↦ KeepsLinks-of_eq core.matches (ground arith) (KeepsLinks-refl core.matches)
      | inr (room, e) ↦ elim (Option-cases (lookup id room.players)) [
        | inl l ↦ KeepsLinks-of_eq core.matches (ground arith) (KeepsLinks-refl core.matches)
        | inr (p, l) ↦
            elim (Result-cases
              (apply_param_change p.params p.next_param_change_at_unix kind dir now)) [
                | inl (t, a) ↦
                    let p' = record p {
                      params = t.params;
                      next_param_change_at_unix = t.next_param_change_at_unix;
                    } in
                    KeepsLinks-of_eq core.matches (ground arith) (
                      insert-KeepsLinks match_id room
                        (record room {
                          players = insert id p' room.players;
                          last_activity_unix = later;
                        })
                        core.matches e (write-KeepsPlayers id p p' room.players l refl))
                | inr (x, a) ↦
                    KeepsLinks-of_eq core.matches (ground arith) (KeepsLinks-refl core.matches)
              ]
      ]
    ]
