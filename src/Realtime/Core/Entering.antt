-- ===== src/Realtime/Core/Entering.antt =====
-- A player enters a room and changes parameters there: `register_player_udp` of player.rs and
-- `update_player_params` of room.rs.
use kotatsu_backend.Prelude.{
  ℕ, ◌≡◌, String, String_eq, some, arith, inl, inr, length, ok, err, if◌then◌else◌, ◌==◌,
  Option-cases, Result-cases,
}
use kotatsu_backend.HashMap.{
  lookup, contains_key, insert, lookup-insert, lookup-insert_self, length-insert_old,
}
use kotatsu_backend.Realtime.Types.{
  CoreState, MatchRoom, PlayerHandle, ParamKind, ParamDirection, ParamMutation, SocketAddr,
  ChannelId, udp,
}
use kotatsu_backend.Realtime.Error.{Error}
use kotatsu_backend.Realtime.Params.{apply_param_change}
use kotatsu_backend.Realtime.Player.{register_player_udp, entering}
use kotatsu_backend.Realtime.Room.{update_player_params}

-- A player of the room is let in again, however full it is: the room has as many players as before,
-- the player is reached at the new address and by the new channel, and keeps parameters, cooldown,
-- colour and stages; the other players stay as they are.
pub register_player_udp_again :
    (match_id player_id name id : String) (addr : SocketAddr) (tx : ChannelId) (now : ℕ)
    (core : CoreState) (room : MatchRoom) (p : PlayerHandle)
    → lookup match_id core.matches ≡ some room
    → lookup player_id room.players ≡ some p
    → let (r, core') = register_player_udp match_id player_id name addr tx now core in
      (r ≡ ok p.params)
      × ((room' : MatchRoom) × (lookup match_id core'.matches ≡ some room')
          × (length room'.players ≡ length room.players)
          × (lookup id room'.players ≡ (
              if player_id == id
              then some
                  (record p { display_name = name; reliable_tx = tx; connection = some (udp addr) })
              else lookup id room.players)))
unfolding register_player_udp contains_key entering
register_player_udp_again match_id player_id name id addr tx now core room p e h =
    let q = record p { display_name = name; reliable_tx = tx; connection = some (udp addr) } in
    let room' = record room {
      players = insert player_id q room.players;
      last_activity_unix = now;
    } in
    (
      ground arith,
      (
        room',
        ground (arith, lookup-insert_self match_id room' core.matches),
        length-insert_old player_id q p room.players h,
        lookup-insert player_id id q room.players,
      ),
    )

-- A change of parameters that is refused, for whatever reason, changes nothing.
pub update_player_params_err :
    (match_id player_id : String) (kind : ParamKind) (dir : ParamDirection) (now later : ℕ)
    (core : CoreState) (e : Error)
    → (update_player_params match_id player_id kind dir now later core).0 ≡ err e
    → (update_player_params match_id player_id kind dir now later core).1 ≡ core
unfolding update_player_params
update_player_params_err match_id player_id kind dir now later core e h =
    elim (Option-cases (lookup match_id core.matches)) [
      | inl x ↦ ground arith
      | inr (room, x) ↦ elim (Option-cases (lookup player_id room.players)) [
        | inl y ↦ ground arith
        | inr (p, y) ↦
            elim (Result-cases
              (apply_param_change p.params p.next_param_change_at_unix kind dir now)) [
                | inl (m, z) ↦ absurd (ground arith)
                | inr (m, z) ↦ ground arith
              ]
      ]
    ]

-- A change that is accepted writes the parameters and the cooldown that it answers with into that
-- player, and leaves the rest of that player and the other players of the room as they are.
pub update_player_params_ok :
    (match_id player_id id : String) (kind : ParamKind) (dir : ParamDirection) (now later : ℕ)
    (core : CoreState) (room : MatchRoom) (p : PlayerHandle) (m : ParamMutation)
    → lookup match_id core.matches ≡ some room
    → lookup player_id room.players ≡ some p
    → let (r, core') = update_player_params match_id player_id kind dir now later core in
      r ≡ ok m
      → (room' : MatchRoom) × (lookup match_id core'.matches ≡ some room')
        × (lookup id room'.players ≡ (
            if player_id == id
            then some (record p {
              params = m.params;
              next_param_change_at_unix = m.next_param_change_at_unix;
            })
            else lookup id room.players))
unfolding update_player_params
update_player_params_ok match_id player_id id kind dir now later core room p m e h r =
    let q = record p {
      params = m.params;
      next_param_change_at_unix = m.next_param_change_at_unix;
    } in
    let room' = record room {
      players = insert player_id q room.players;
      last_activity_unix = later;
    } in
    elim (Result-cases (apply_param_change p.params p.next_param_change_at_unix kind dir now)) [
      | inl (m', z) ↦
          let same : m' ≡ m = ground arith in
          (
            room',
            ground (arith, lookup-insert_self match_id room' core.matches),
            lookup-insert player_id id q room.players,
          )
      | inr (x, z) ↦ absurd (ground arith)
    ]
