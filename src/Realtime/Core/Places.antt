-- ===== src/Realtime/Core/Places.antt =====
-- The places of the players who have finished: `finish_player` of room.rs.
use kotatsu_backend.Prelude.{
  ℕ, zero, suc, ◌+◌, ◌%◌, ◌<◌, ◌≡◌, String, String_eq, List, [], ◌∷◌, ◌++◌, Option, none, some,
  arith, inl, inr, Option-cases, Bool-cases, Result-cases, ok, err, nat_eq, if◌then◌else◌, length,
  length-append, All,
}
use kotatsu_backend.HashMap.{
  lookup, contains_key, insert, remove, lookup-insert_self, lookup-insert, lookup-remove,
}
use kotatsu_backend.Realtime.Magicnums.{u32_mod}
use kotatsu_backend.Realtime.Types.{CoreState, MatchRoom, new_room}
use kotatsu_backend.Realtime.Error.{Error}
use kotatsu_backend.Realtime.Params.{apply_param_change}
use kotatsu_backend.Realtime.Layout.{assign_randomized_layout}
use kotatsu_backend.Realtime.Ticket
use kotatsu_backend.Realtime.Player
use kotatsu_backend.Realtime.Room
use kotatsu_backend.Realtime.Room.{position, finish, finish_player}
use kotatsu_backend.Realtime.ControlPlane
use kotatsu_backend.Realtime.Core.{Call, step, run}
use kotatsu_backend.Realtime.Core.Valid.{IsValid}
use kotatsu_backend.Realtime.Core.Reach.{step-IsValid}
use kotatsu_backend.Realtime.Core.Lobby.{delete_stale_lobby_rooms_lem}

position-append :
    (id : String) (i : ℕ) (xs ys : List String)
    → position id xs ≡ some i
    → position id (xs ++ ys) ≡ some i
unfolding position
position-append id i [] ys h = cc
position-append id zero (x ∷ xs) ys h = ground (arith, position-append id zero xs ys)
position-append id (suc i) (x ∷ xs) ys h = ground (arith, position-append id i xs ys)

position_last :
    (id : String) (xs : List String)
    → position id xs ≡ none
    → position id (xs ++ id ∷ []) ≡ some (length xs)
unfolding position
position_last id [] h = ground (arith, String_eq.beq_iff id id)
position_last id (x ∷ xs) h = ground (arith, position_last id xs)

pub position-lt-length :
    (id : String) (i : ℕ) (xs : List String) → position id xs ≡ some i → i < length xs
unfolding position
position-lt-length id i [] h = cc
position-lt-length id zero (x ∷ xs) h = omega arith
position-lt-length id (suc i) (x ∷ xs) h = ground (arith, position-lt-length id i xs)

-- The place of a player among the finished of a match that has started.
unfoldable pub place : String → String → CoreState → Option ℕ
place match_id id core = elim (lookup match_id core.matches) [
  | none ↦ none
  | some room ↦ if nat_eq room.started_at_unix 0 then none else position id room.finished_player_ids
]

-- A call that deletes the match or creates one of the same id.
abbrev pub Replaces : String → Call → Type 0
Replaces match_id (Call.create_room uuid now) = ControlPlane.match_id_of uuid ≡ match_id
Replaces match_id (Call.delete_room match_id') = match_id' ≡ match_id
Replaces match_id _ = ⊥

finish-position :
    (id other : String) (i now : ℕ) (room : MatchRoom)
    → position id room.finished_player_ids ≡ some i
    → position id (finish other now room).1.finished_player_ids ≡ some i
unfolding finish
finish-position id other i now room h =
    ground (arith, position-append id i room.finished_player_ids (other ∷ []))

finish-started :
    (other : String) (now : ℕ) (room : MatchRoom)
    → (finish other now room).1.started_at_unix ≡ room.started_at_unix
unfolding finish
finish-started other now room = ground arith

-- A place that has been taken stays, until the match is deleted or created anew.
pub step-place :
    (match_id id : String) (i : ℕ) (core : CoreState) (call : Call)
    → IsValid core
    → ¬ Replaces match_id call
    → place match_id id core ≡ some i
    → place match_id id (step core call) ≡ some i
unfolding step place
step-place m id i core (Call.create_room uuid now) v other h =
    unfold ControlPlane.create_room in
    ground (
      arith,
      lookup-insert (ControlPlane.match_id_of uuid) m (new_room now) core.matches,
      String_eq.beq_iff (ControlPlane.match_id_of uuid) m,
    )
step-place m id i core (Call.issue_join_ticket url m' name uuid token now) v other h =
    unfold ControlPlane.issue_join_ticket in
    elim (Option-cases (lookup m' core.matches)) [
      | inl e ↦ ground arith
      | inr (room, e) ↦ ground (
        arith,
        lookup-insert m' m (record room { last_activity_unix = now }) core.matches,
        String_eq.beq_iff m' m,
      )
    ]
step-place m id i core (Call.start_match shuffle m' now) v other h =
    unfold Room.start_match_and_snapshot_players in
    elim (Option-cases (lookup m' core.matches)) [
      | inl e ↦ ground arith
      | inr (room, e) ↦ ground (
        arith,
        lookup-insert m' m room core.matches,
        lookup-insert m' m
            (assign_randomized_layout shuffle
              (record room { started_at_unix = now; last_activity_unix = now }))
            core.matches,
        String_eq.beq_iff m' m,
      )
    ]
step-place m id i core (Call.finish_player m' p now) v other h =
    unfold Room.finish_player in
    elim (Option-cases (lookup m' core.matches)) [
      | inl e ↦ ground arith
      | inr (room, e) ↦ ground (
        arith,
        lookup-insert m' m (finish p now room).1 core.matches,
        String_eq.beq_iff m' m,
        finish-position id p i now room,
        finish-started p now room,
      )
    ]
step-place m id i core (Call.delete_room m') v other h =
    unfold ControlPlane.delete_room in
    ground (arith, lookup-remove m' m core.matches, String_eq.beq_iff m' m)
step-place m id i core (Call.delete_stale_lobby_rooms timeout now) v other h =
    ground (arith, (delete_stale_lobby_rooms_lem timeout now core m "" v).1)
step-place m id i core (Call.consume_ticket token' now) v other h =
    unfold Ticket.consume_ticket in ground arith
step-place m id i core (Call.register_player m' p name addr tx now) v other h =
    unfold Player.register_player_udp in
    elim (Option-cases (lookup m' core.matches)) [
      | inl e ↦ ground arith
      | inr (room, e) ↦ ground (
        arith,
        lookup-insert m' m
            (record room {
              players =
                  insert p (Player.entering (lookup p room.players) name addr tx) room.players;
              last_activity_unix = now;
            })
            core.matches,
        String_eq.beq_iff m' m,
      )
    ]
step-place m id i core (Call.remove_player m' p now) v other h =
    unfold Player.remove_player in
    elim (Option-cases (lookup m' core.matches)) [
      | inl e ↦ ground arith
      | inr (room, e) ↦ ground (
        arith,
        lookup-insert m' m
            (record room { players = remove p room.players; last_activity_unix = now })
            core.matches,
        String_eq.beq_iff m' m,
      )
    ]
step-place m id i core (Call.update_player_params m' p kind dir now later) v other h =
    unfold Room.update_player_params in
    elim (Option-cases (lookup m' core.matches)) [
      | inl e ↦ ground arith
      | inr (room, e) ↦ elim (Option-cases (lookup p room.players)) [
        | inl e' ↦ ground arith
        | inr (q, e') ↦
            elim (Result-cases
              (apply_param_change q.params q.next_param_change_at_unix kind dir now)) [
                | inr (x, e'') ↦ ground arith
                | inl (n, e'') ↦ ground (
                  arith,
                  lookup-insert m' m
                      (record room {
                        players =
                            insert p
                              (record q {
                                params = n.params;
                                next_param_change_at_unix = n.next_param_change_at_unix;
                              })
                              room.players;
                        last_activity_unix = later;
                      })
                      core.matches,
                  String_eq.beq_iff m' m,
                )
              ]
      ]
    ]

pub run-place :
    (match_id id : String) (i : ℕ) (core : CoreState) (calls : List Call)
    → IsValid core
    → All (λ call. ¬ Replaces match_id call) calls
    → place match_id id core ≡ some i
    → place match_id id (run core calls) ≡ some i
unfolding run
run-place m id i core [] v h p = p
run-place m id i core (call ∷ calls) v h p =
    run-place m id i (step core call) calls (step-IsValid core call v) h.1
      (step-place m id i core call v h.0 p)

-- A finish that succeeds takes a place, and answers with the rank of that place.
pub finish_player-place :
    (match_id id : String) (now : ℕ) (core : CoreState) (rank finished total : ℕ)
    → (finish_player match_id id now core).0 ≡ ok (rank, finished, total)
    → (i : ℕ) × (place match_id id (finish_player match_id id now core).1 ≡ some i)
      × (rank ≡ (i + 1) % u32_mod)
unfolding finish_player place
finish_player-place m id now core rank finished total h =
    elim (Option-cases (lookup m core.matches)) [
      | inl e ↦ absurd (ground arith)
      | inr (room, e) ↦ elim (Option-cases (position id room.finished_player_ids)) [
        | inl e' ↦ (
          length room.finished_player_ids,
          ground (
            arith,
            lookup-insert_self m (finish id now room).1 core.matches,
            position_last id room.finished_player_ids,
          ),
          ground (arith, length-append room.finished_player_ids (id ∷ [])),
        )
        | inr (i, e') ↦ (
          i,
          ground (arith, lookup-insert_self m (finish id now room).1 core.matches),
          ground arith,
        )
      ]
    ]

-- What a finish of a player with a place is answered with: its rank and the counts of the room, or,
-- where the player has left the room, that it is not there.
pub finish_player_placed :
    (match_id id : String) (now : ℕ) (core : CoreState) (i : ℕ)
    → place match_id id core ≡ some i
    → (room : MatchRoom) × (lookup match_id core.matches ≡ some room)
      × ((finish_player match_id id now core).0 ≡ (
          if contains_key id room.players
          then ok (
            (i + 1) % u32_mod,
            length room.finished_player_ids % u32_mod,
            length room.players % u32_mod,
          )
          else err Error.player_not_found))
unfolding finish_player place
finish_player_placed m id now core i h = elim (Option-cases (lookup m core.matches)) [
  | inl e ↦ absurd (ground arith)
  | inr (room, e) ↦ elim (Bool-cases (contains_key id room.players)) [
    | inl e' ↦ (room, e, ground arith)
    | inr e' ↦ (room, e, ground arith)
  ]
]
