-- ===== src/Realtime/Core/Layout.antt =====
-- The randomised layout keeps a room valid.
use kotatsu_backend.Prelude.{
  ℕ, ◌+◌, ◌≡◌, refl, String, String_eq, List, [], ◌∷◌, arith, length, inl, inr, Option-cases, ◌∙◌,
  map,
}
use kotatsu_backend.Prelude.Order.{String_order}
use kotatsu_backend.Sort.{sort_by}
use kotatsu_backend.HashMap.{
  HashMap, lookup, insert, IsMap, AllValues, insert-IsMap, insert-AllValues, length-insert_old,
  lookup-AllValues,
}
use kotatsu_backend.Realtime.Magicnums.{room_max_players}
use kotatsu_backend.Realtime.Types.{MatchRoom, PlayerHandle}
use kotatsu_backend.Realtime.Layout.{
  Shuffle, laid_out, assign_one, assign_from, assign_randomized_layout, range,
}
use kotatsu_backend.Realtime.Core.Valid.{HasLevels, RoomIsValid}

-- What the layout must not change about the players.
record Keeps (players players' : HashMap String PlayerHandle) : Type 0 where
  same_length : length players' ≡ length players
  is_map : IsMap players → IsMap players'
  levels : AllValues HasLevels players → AllValues HasLevels players'

assign_from-Keeps :
    (shuffle : Shuffle) (colors : List ℕ) (index : ℕ) (ids : List String)
    (players : HashMap String PlayerHandle)
    → Keeps players (assign_from shuffle colors index ids players)
unfolding assign_from
assign_from-Keeps shuffle colors index [] players = record {
  same_length = refl;
  is_map = λ h. h;
  levels = λ h. h;
}
assign_from-Keeps shuffle colors index (id ∷ ids) players =
    elim (Option-cases (lookup id players)) [
      | inl e ↦ rw (e, assign_one) (assign_from-Keeps shuffle colors (index + 1) ids players)
      | inr (p, e) ↦
          let q = laid_out shuffle colors index p in
          let k = assign_from-Keeps shuffle colors (index + 1) ids (insert id q players) in
          rw (e, assign_one)
            (record {
              same_length = k.same_length ∙ length-insert_old id q p players e;
              is_map = λ h. k.is_map (insert-IsMap id q players h);
              levels = λ h. k.levels (
                  insert-AllValues HasLevels id q players h
                    (lookup-AllValues HasLevels id p players h e));
            })
    ]

pub assign_randomized_layout-RoomIsValid :
    (shuffle : Shuffle) (room : MatchRoom)
    → RoomIsValid room
    → RoomIsValid (assign_randomized_layout shuffle room)
unfolding assign_randomized_layout
assign_randomized_layout-RoomIsValid shuffle room v =
    let k =
      assign_from-Keeps shuffle (shuffle 0 (range 0 room_max_players)) 0
        (sort_by (λ id. id) (map (λ e. e.0) room.players)) room.players in
    record {
      players_map = k.is_map v.players_map;
      capacity = omega (arith, k.same_length, v.capacity);
      levels = k.levels v.levels;
      finished_once = v.finished_once;
      lobby_open = v.lobby_open;
    }
