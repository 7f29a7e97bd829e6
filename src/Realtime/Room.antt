-- ===== src/Realtime/Room.antt =====
-- realtime-server/src/room.rs: what is done to a room under the lock, and the broadcasts.
use kotatsu_backend.Prelude.{
  ℕ, ℕ_eq, suc, ◌+◌, ◌-◌, ◌%◌, String, String_eq, Bool, false, not, ◌&&◌, ◌||◌, List, [], ◌∷◌, ◌++◌,
  Option, none, some, map, filter, length, nat_eq, leb, if◌then◌else◌, ◌==◌, map_err, Result,
  Locked, pure, ok_or, return_err_if, ◌>>=◌, ◌>>◌,
}
use kotatsu_backend.HashMap.{HashMap, lookup, contains_key, insert, remove, retain}
use kotatsu_backend.Realtime.Magicnums.{u32_mod}
use kotatsu_backend.Realtime.Types.{
  CoreState, MatchRoom, PlayerMatchState, ParamKind, ParamDirection, ParamMutation,
}
use kotatsu_backend.Realtime.Error.{Error}
use kotatsu_backend.Realtime.Params.{apply_param_change}
use kotatsu_backend.Realtime.Player.{get_match, put_match}
use kotatsu_backend.Realtime.Layout.{Shuffle, assign_randomized_layout, snapshot_players}

-- `?` on a result.
abbrev pub try : {S E A : Type 0} → Result A E → Locked S E A
try r s = (r, s)

-- The clock is read for the change, and again for the activity.
unfoldable pub update_player_params :
    String → String → ParamKind → ParamDirection → ℕ → ℕ → Locked CoreState Error ParamMutation
update_player_params match_id player_id param direction now later = do
  room ← get_match match_id
  player ← ok_or (lookup player_id room.players) Error.player_not_found
  updated ← try (
      map_err Error.param_update
        (apply_param_change player.params player.next_param_change_at_unix param direction now))
  let player' = record player {
    params = updated.params;
    next_param_change_at_unix = updated.next_param_change_at_unix;
  }
  put_match match_id
      (record room { players = insert player_id player' room.players; last_activity_unix = later })
  pure updated

-- A lobby that has had no activity for the given time.
unfoldable pub is_stale : ℕ → ℕ → MatchRoom → Bool
is_stale now idle_timeout_secs room =
    nat_eq room.started_at_unix 0 && leb idle_timeout_secs (now - room.last_activity_unix)

-- `Vec::contains`
unfoldable pub contains : List String → String → Bool
contains [] id = false
contains (x ∷ xs) id = x == id || contains xs id

unfoldable pub remove_matches : List String → HashMap String MatchRoom → HashMap String MatchRoom
remove_matches [] matches = matches
remove_matches (match_id ∷ ids) matches = remove_matches ids (remove match_id matches)

unfoldable pub delete_stale_lobby_rooms : ℕ → ℕ → CoreState → List String × CoreState
unfolding is_stale contains remove_matches
delete_stale_lobby_rooms idle_timeout_secs now core =
    let stale_match_ids =
      map (λ e. e.0) (filter (λ e. is_stale now idle_timeout_secs e.1) core.matches) in
    elim stale_match_ids [
      | [] ↦ ([], core)
      | id ∷ ids ↦ (
        id ∷ ids,
        record {
          matches = remove_matches (id ∷ ids) core.matches;
          tickets = retain (λ ticket. not (contains (id ∷ ids) ticket.match_id)) core.tickets;
        },
      )
    ]

-- The second and third results are whether this call has started the match, and the players.
unfoldable pub start_match_and_snapshot_players :
    Shuffle → String → ℕ → Locked CoreState Error (ℕ × Bool × List PlayerMatchState)
start_match_and_snapshot_players shuffle match_id now = do
  room ← get_match match_id
  let just_started = nat_eq room.started_at_unix 0
  let room' =
      if just_started
      then assign_randomized_layout shuffle
          (record room { started_at_unix = now; last_activity_unix = now })
      else room
  put_match match_id room'
  pure (room'.started_at_unix, just_started, snapshot_players room')

-- `iter().position(..)`
unfoldable pub position : String → List String → Option ℕ
position id [] = none
position id (x ∷ xs) =
    if x == id then some 0 else elim (position id xs) [ none ↦ none | some i ↦ some (suc i) ]

-- The rank of a player, with the finished list and the time of activity that follow.
unfoldable pub finish : String → ℕ → MatchRoom → ℕ × MatchRoom
unfolding position
finish player_id now room = elim (position player_id room.finished_player_ids) [
  | some index ↦ ((index + 1) % u32_mod, room)
  | none ↦
      let finished = room.finished_player_ids ++ player_id ∷ [] in
      (
        length finished % u32_mod,
        record room { finished_player_ids = finished; last_activity_unix = now },
      )
]

unfoldable pub finish_player : String → String → ℕ → Locked CoreState Error (ℕ × ℕ × ℕ)
unfolding finish
finish_player match_id player_id now = do
  room ← get_match match_id
  return_err_if (nat_eq room.started_at_unix 0) Error.match_not_started
  return_err_if (not (contains_key player_id room.players)) Error.player_not_found
  let (rank, room') = finish player_id now room
  put_match match_id room'
  pure (rank, length room'.finished_player_ids % u32_mod, length room'.players % u32_mod)
