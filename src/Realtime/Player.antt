-- ===== src/Realtime/Player.antt =====
-- realtime-server/src/player.rs: a player enters and leaves a room.
use kotatsu_backend.Prelude.{
  ℕ, String, String_eq, not, ◌&&◌, [], Option, none, some, leb, length, Locked, pure, gets, modify,
  ok_or, return_err_if, ◌>>=◌, ◌>>◌,
}
use kotatsu_backend.HashMap.{lookup, contains_key, insert, remove}
use kotatsu_backend.Realtime.Magicnums.{room_max_players}
use kotatsu_backend.Realtime.Types.{
  CoreState, MatchRoom, PlayerHandle, PlayerParams, SocketAddr, ChannelId, default_params, udp,
}
use kotatsu_backend.Realtime.Error.{Error}

-- `core.matches.get_mut(match_id)` with `match_not_found`.
abbrev pub get_match : String → Locked CoreState Error MatchRoom
get_match match_id = do ok_or (← gets (λ core. lookup match_id core.matches)) Error.match_not_found

-- What is written through that reference.
abbrev pub put_match : String → MatchRoom → Locked CoreState Error (Unit {0})
put_match match_id room =
    modify (λ core. record core { matches = insert match_id room core.matches })

-- The handle of a player who enters: what an earlier handle had is kept.
unfoldable pub entering : Option PlayerHandle → String → SocketAddr → ChannelId → PlayerHandle
entering none display_name addr reliable_tx = record {
  display_name = display_name;
  params = default_params;
  next_param_change_at_unix = 0;
  color_index = none;
  stage_order = [];
  current_stage_index = 0;
  reliable_tx = reliable_tx;
  connection = some (udp addr);
}
entering (some p) display_name addr reliable_tx = record p {
  display_name = display_name;
  reliable_tx = reliable_tx;
  connection = some (udp addr);
}

unfoldable pub register_player_udp :
    String → String → String → SocketAddr → ChannelId → ℕ → Locked CoreState Error PlayerParams
register_player_udp match_id player_id display_name addr reliable_tx now = do
  room ← get_match match_id
  return_err_if
      (leb room_max_players (length room.players) && not (contains_key player_id room.players))
      Error.match_full
  let handle = entering (lookup player_id room.players) display_name addr reliable_tx
  put_match match_id
      (record room { players = insert player_id handle room.players; last_activity_unix = now })
  pure handle.params

unfoldable pub remove_player : String → String → ℕ → CoreState → CoreState
remove_player match_id player_id now core = elim (lookup match_id core.matches) [
  | none ↦ core
  | some room ↦ record core {
    matches =
        insert match_id
          (record room { players = remove player_id room.players; last_activity_unix = now })
          core.matches;
  }
]
