-- ===== src/Realtime/Core/Reach.antt =====
-- Every state of `core` that the server reaches is valid.
use kotatsu_backend.Prelude.{List, [], ◌∷◌}
use kotatsu_backend.Realtime.Types.{CoreState, default_core}
use kotatsu_backend.Realtime.Core.{Call, step, run}
use kotatsu_backend.Realtime.Core.Valid.{IsValid}
use kotatsu_backend.Realtime.Core.Players.{
  register_player_udp-IsValid, remove_player-IsValid, update_player_params-IsValid,
}
use kotatsu_backend.Realtime.Core.Rooms.{
  create_room-IsValid, issue_join_ticket-IsValid, start_match-IsValid, finish_player-IsValid,
  consume_ticket-IsValid,
}
use kotatsu_backend.Realtime.Core.Deletions.{delete_room-IsValid, delete_stale-IsValid}

-- Every call keeps the invariant, whatever its arguments: rooms of at most four players with levels
-- in range, nobody finished twice or before the start, and tickets only for rooms that exist.
pub step-IsValid : (core : CoreState) (call : Call) → IsValid core → IsValid (step core call)
unfolding step
step-IsValid core (Call.create_room uuid now) v = create_room-IsValid uuid now core v
step-IsValid core (Call.issue_join_ticket url m name uuid token now) v =
    issue_join_ticket-IsValid url m name uuid token now core v
step-IsValid core (Call.start_match shuffle m now) v = start_match-IsValid shuffle m now core v
step-IsValid core (Call.finish_player m p now) v = finish_player-IsValid m p now core v
step-IsValid core (Call.delete_room m) v = delete_room-IsValid m core v
step-IsValid core (Call.delete_stale_lobby_rooms timeout now) v =
    delete_stale-IsValid timeout now core v
step-IsValid core (Call.consume_ticket token now) v = consume_ticket-IsValid token now core v
step-IsValid core (Call.register_player m p name addr tx now) v =
    register_player_udp-IsValid m p name addr tx now core v
step-IsValid core (Call.remove_player m p now) v = remove_player-IsValid m p now core v
step-IsValid core (Call.update_player_params m p kind dir now later) v =
    update_player_params-IsValid m p kind dir now later core v

-- Every sequence of calls keeps the invariant.
pub run-IsValid : (core : CoreState) (calls : List Call) → IsValid core → IsValid (run core calls)
unfolding run
run-IsValid core [] v = v
run-IsValid core (call ∷ calls) v = run-IsValid (step core call) calls (step-IsValid core call v)

-- In every state that any sequence of calls reaches from the server's start, each room has at most
-- four players with distinct ids and levels in range, its finished players are listed once each and
-- only after the start, and every ticket is for a room that exists.
pub run-default_core-IsValid : (calls : List Call) → IsValid (run default_core calls)
run-default_core-IsValid calls =
    run-IsValid default_core calls
      (record { matches_map = tt; rooms = tt; tickets_map = tt; placed = tt })
