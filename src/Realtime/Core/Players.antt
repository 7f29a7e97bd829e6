-- ===== src/Realtime/Core/Players.antt =====
-- The calls about single players keep `core` valid.
use kotatsu_backend.Prelude.{
  ℕ, ◌≡◌, refl, String, String_eq, false, not, ◌&&◌, Option, none, some, arith, length, leb, inl,
  inr, Option-cases, Result-cases,
}
use kotatsu_backend.HashMap.{
  lookup, contains_key, insert, remove, insert-IsMap, remove-IsMap, insert-AllValues,
  remove-AllValues, length-insert, length-remove-le, lookup-AllValues,
}
use kotatsu_backend.Realtime.Magicnums.{room_max_players}
use kotatsu_backend.Realtime.Types.{
  CoreState, MatchRoom, PlayerHandle, ParamKind, ParamDirection, SocketAddr, ChannelId,
}
use kotatsu_backend.Realtime.Params.{apply_param_change}
use kotatsu_backend.Realtime.Params.Range.{apply_param_change-IsInRange}
use kotatsu_backend.Realtime.Player.{entering, register_player_udp, remove_player}
use kotatsu_backend.Realtime.Room.{update_player_params}
use kotatsu_backend.Realtime.Core.Valid.{
  HasLevels, RoomIsValid, IsValid, lookup-RoomIsValid, insert_match-IsValid,
  write_player-RoomIsValid,
}

entering-HasLevels :
    (o : Option PlayerHandle) (name : String) (addr : SocketAddr) (tx : ChannelId)
    → ((p : PlayerHandle) → o ≡ some p → HasLevels p)
    → HasLevels (entering o name addr tx)
unfolding entering
entering-HasLevels none name addr tx h = omega arith
entering-HasLevels (some p) name addr tx h = h p refl

enter-RoomIsValid :
    (room : MatchRoom) (player_id name : String) (addr : SocketAddr) (tx : ChannelId) (now : ℕ)
    → RoomIsValid room
    → (leb room_max_players (length room.players) && not (contains_key player_id room.players))
      ≡ false
    → RoomIsValid (record room {
      players =
          insert player_id (entering (lookup player_id room.players) name addr tx) room.players;
      last_activity_unix = now;
    })
enter-RoomIsValid room player_id name addr tx now v h =
    let p = entering (lookup player_id room.players) name addr tx in
    record {
      players_map = insert-IsMap player_id p room.players v.players_map;
      capacity = ground (arith, length-insert player_id p room.players, v.capacity);
      levels = insert-AllValues HasLevels player_id p room.players v.levels (
          entering-HasLevels (lookup player_id room.players) name addr tx
            λ q. lookup-AllValues HasLevels player_id q room.players v.levels);
      finished_once = v.finished_once;
      lobby_open = v.lobby_open;
    }

pub register_player_udp-IsValid :
    (match_id player_id name : String) (addr : SocketAddr) (tx : ChannelId) (now : ℕ)
    (core : CoreState)
    → IsValid core
    → IsValid (register_player_udp match_id player_id name addr tx now core).1
unfolding register_player_udp
register_player_udp-IsValid match_id player_id name addr tx now core v =
    elim (Option-cases (lookup match_id core.matches)) [
      | inl e ↦ ground arith
      | inr (room, e) ↦ ground (
        arith,
        enter-RoomIsValid room player_id name addr tx now (lookup-RoomIsValid v match_id room e),
        insert_match-IsValid v match_id (record room {
          players =
              insert player_id (entering (lookup player_id room.players) name addr tx) room.players;
          last_activity_unix = now;
        }),
      )
    ]

pub remove_player-IsValid :
    (match_id player_id : String) (now : ℕ) (core : CoreState)
    → IsValid core
    → IsValid (remove_player match_id player_id now core)
unfolding remove_player
remove_player-IsValid match_id player_id now core v =
    elim (Option-cases (lookup match_id core.matches)) [
      | inl e ↦ rw (e, remove_player) v
      | inr (room, e) ↦
          let r = lookup-RoomIsValid v match_id room e in
          rw (e, remove_player)
            (insert_match-IsValid v match_id
              (record room { players = remove player_id room.players; last_activity_unix = now })
              (record {
                players_map = remove-IsMap player_id room.players r.players_map;
                capacity = omega (arith, length-remove-le player_id room.players, r.capacity);
                levels = remove-AllValues HasLevels player_id room.players r.levels;
                finished_once = r.finished_once;
                lobby_open = r.lobby_open;
              }))
    ]

pub update_player_params-IsValid :
    (match_id player_id : String) (kind : ParamKind) (dir : ParamDirection) (now later : ℕ)
    (core : CoreState)
    → IsValid core
    → IsValid (update_player_params match_id player_id kind dir now later core).1
unfolding update_player_params
update_player_params-IsValid match_id player_id kind dir now later core v =
    elim (Option-cases (lookup match_id core.matches)) [
      | inl e ↦ ground arith
      | inr (room, e) ↦ elim (Option-cases (lookup player_id room.players)) [
        | inl e' ↦ ground arith
        | inr (p, e') ↦
            let r = lookup-RoomIsValid v match_id room e in
            let h : HasLevels p = lookup-AllValues HasLevels player_id p room.players r.levels e' in
            elim (Result-cases
              (apply_param_change p.params p.next_param_change_at_unix kind dir now)) [
                | inr (x, e'') ↦ ground arith
                | inl (m, e'') ↦
                    let q = record p {
                      params = m.params;
                      next_param_change_at_unix = m.next_param_change_at_unix;
                    } in
                    ground (
                      arith,
                      insert_match-IsValid v match_id
                          (record room {
                            players = insert player_id q room.players;
                            last_activity_unix = later;
                          })
                          (write_player-RoomIsValid r player_id p q later e' (
                            apply_param_change-IsInRange p.params p.next_param_change_at_unix kind
                              dir now m h e'')),
                    )
              ]
      ]
    ]
