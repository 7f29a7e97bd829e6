-- ===== src/Realtime/Tests/CoreTests.antt =====
-- Tests of Core: the theorems at a state with a lobby, a started match and a ticket.
use kotatsu_backend.Prelude.{
  ==_of_eq, ◌≢◌, ℕ, ℕ_eq, ◌≡◌, refl, String_eq, true, [], ◌∷◌, none, some, arith, ok, err,
}
use kotatsu_backend.HashMap.{lookup, contains_key, IsMap}
use kotatsu_backend.Realtime.Magicnums.{u32_mod}
use kotatsu_backend.Prelude.{if◌then◌else◌, length, ◌%◌}
use kotatsu_backend.Realtime.Types.{MatchRoom, default_params, default_core, match_started}
use kotatsu_backend.Realtime.Error.{Error}
use kotatsu_backend.Realtime.Ticket.{consume_ticket}
use kotatsu_backend.Realtime.Player.{register_player_udp}
use kotatsu_backend.Realtime.Room.{
  contains, delete_stale_lobby_rooms, finish_player, update_player_params, position,
}
use kotatsu_backend.Realtime.ControlPlane.{start_room}
use kotatsu_backend.Realtime.Params.Range.{IsInRange}
use kotatsu_backend.Realtime.Core.{Call, step, run}
use kotatsu_backend.Realtime.Core.Valid.{IsValid, RoomIsValid}
use kotatsu_backend.Realtime.Core.Reach.{run-default_core-IsValid}
use kotatsu_backend.Realtime.Core.Tickets.{consume_ticket_single_use}
use kotatsu_backend.Realtime.Core.Lobby.{delete_stale_lobby_rooms_lem}
use kotatsu_backend.Realtime.Core.Finish.{finish_player_rank_stable, finish_player_ranks_ne}
use kotatsu_backend.Realtime.Core.Start.{start_room_announces, started_room}
use kotatsu_backend.Realtime.Cleanup.{cleanup_rounds}
use kotatsu_backend.Realtime.Cleanup.Rounds.{cleanup_rounds_lem}
use kotatsu_backend.Realtime.Samples.{core, server, lobby, running, alice, no_shuffle}

default_params-IsInRange : IsInRange default_params
default_params-IsInRange = record {
  gravity_low = omega arith;
  gravity_high = omega arith;
  friction_low = omega arith;
  friction_high = omega arith;
  speed_low = omega arith;
  speed_high = omega arith;
}

lobby-RoomIsValid : RoomIsValid lobby
unfolding lookup position
lobby-RoomIsValid = record {
  players_map = (refl, (refl, tt));
  capacity = omega arith;
  levels = (default_params-IsInRange, (default_params-IsInRange, tt));
  finished_once = tt;
  lobby_open = λ _. refl;
}

running-RoomIsValid : RoomIsValid running
unfolding lookup position
running-RoomIsValid = record {
  players_map = (refl, tt);
  capacity = omega arith;
  levels = (default_params-IsInRange, tt);
  finished_once = tt;
  lobby_open = λ _. refl;
}

pub core-IsValid : IsValid core
unfolding lookup contains_key
core-IsValid = record {
  matches_map = (refl, (refl, tt));
  rooms = (lobby-RoomIsValid, (running-RoomIsValid, tt));
  tickets_map = (refl, tt);
  placed = (refl, tt);
}

run-default_core-IsValid_example :
    IsValid
      (run default_core (Call.create_room "1" 100 ∷ Call.delete_stale_lobby_rooms 180 300 ∷ []))
run-default_core-IsValid_example =
    run-default_core-IsValid (Call.create_room "1" 100 ∷ Call.delete_stale_lobby_rooms 180 300 ∷ [])

-- Not even a deletion and a new room of the same id bring the token back.
consume_ticket_single_use_example :
    (consume_ticket "t_1" 1600 (
      run
        (consume_ticket "t_1" 1500 core).1
        (Call.delete_room "m_1" ∷ Call.create_room "1" 1550 ∷ []))).0
    ≡ err Error.invalid_token
consume_ticket_single_use_example =
    consume_ticket_single_use "t_1" 1500 1600 core
      (Call.delete_room "m_1" ∷ Call.create_room "1" 1550 ∷ []) ((λ x. x), ((λ x. x), tt))

-- At 1180 the lobby has been idle for three minutes, and the started match is kept.
delete_stale_lobby_rooms_example :
    let (ids, core') = delete_stale_lobby_rooms 180 1180 core in
    (contains ids "m_1" ≡ true)
    × (lookup "m_1" core'.matches ≡ none)
    × (lookup "t_1" core'.tickets ≡ none)
unfolding lookup kotatsu_backend.Realtime.Room.is_stale
delete_stale_lobby_rooms_example =
    delete_stale_lobby_rooms_lem 180 1180 core "m_1" "t_1" core-IsValid

-- Carol finishes, a lobby is deleted, and she asks again.
finish_player_rank_stable_example :
    let core' = run (finish_player "m_2" "p_c" 1000 core).1 (Call.delete_room "m_1" ∷ []) in
    (room : MatchRoom) × (lookup "m_2" core'.matches ≡ some room)
    × ((finish_player "m_2" "p_c" 1020 core').0 ≡ (
        if contains_key "p_c" room.players
        then ok (1, length room.finished_player_ids % u32_mod, length room.players % u32_mod)
        else err Error.player_not_found))
unfolding finish_player lookup contains_key kotatsu_backend.Realtime.Room.finish
    kotatsu_backend.HashMap.insert
finish_player_rank_stable_example =
    finish_player_rank_stable "m_2" "p_c" 1000 1020 1 1 1 core (Call.delete_room "m_1" ∷ [])
      core-IsValid ((λ q. absurd (ground (arith, ==_of_eq "m_1" "m_2" q))), tt) refl

start_room_announces_example :
    let (r, s') = start_room no_shuffle "m_1" 1000 1000000 server in
    let players =
      kotatsu_backend.Realtime.Layout.snapshot_players (started_room no_shuffle 1000 lobby) in
    (r ≡ ok (record { match_id = "m_1"; started_at_unix = 1000 }))
    × (lookup 2 s'.channels ≡ some (match_started "m_1" 1000 players 1000000 ∷ []))
unfolding lookup kotatsu_backend.Realtime.Layout.assign_randomized_layout
    kotatsu_backend.Sort.sort_by kotatsu_backend.HashMap.insert
start_room_announces_example =
    start_room_announces no_shuffle "m_1" 1000 1000000 server lobby 2 refl refl

cleanup_rounds_example : lookup "m_1" (cleanup_rounds (1100 ∷ 1179 ∷ 1180 ∷ []) core).matches ≡ none
unfolding lookup
cleanup_rounds_example =
    cleanup_rounds_lem (1100 ∷ 1179 ∷ 1180 ∷ []) core "m_1" lobby core-IsValid refl

-- Another player has joined the match in the meantime.
finish_player_ranks_ne_example : let r : ℕ = 1 in let r' : ℕ = 2 in r ≢ r'
unfolding finish_player lookup contains_key kotatsu_backend.Realtime.Room.finish
    kotatsu_backend.HashMap.insert position register_player_udp run step
    kotatsu_backend.Realtime.Player.entering
finish_player_ranks_ne_example =
    finish_player_ranks_ne "m_2" "p_c" "p_z" 1000 1020 1 1 1 2 2 2 core
      (Call.register_player "m_2" "p_z" "zoe" 7010 8 1010 ∷ [])
      (record {
        players =
            ("p_c", kotatsu_backend.Realtime.Samples.player "carol" 7003 3)
            ∷ ("p_z", kotatsu_backend.Realtime.Samples.player "zoe" 7010 8)
            ∷ [];
        started_at_unix = 900;
        last_activity_unix = 1020;
        finished_player_ids = "p_c" ∷ "p_z" ∷ [];
      })
      core-IsValid ((λ x. x), tt) (λ q. absurd (ground (arith, ==_of_eq "p_c" "p_z" q))) refl refl
      refl (omega arith)
