-- ===== src/Realtime/Layout.antt =====
-- The randomised layout of a match, and the snapshot of its players: realtime-server/src/room.rs.
pub mod Loop
pub mod Shuffled
pub mod Drawn
use kotatsu_backend.Prelude.{
  ℕ, zero, suc, ◌+◌, min, String, String_eq, List, [], ◌∷◌, Option, none, some, map, take, length,
  get_elem?,
}
use kotatsu_backend.Prelude.Order.{String_order}
use kotatsu_backend.HashMap.{HashMap, lookup, insert}
use kotatsu_backend.Sort.{sort_by}
use kotatsu_backend.Realtime.Magicnums.{
  room_max_players, match_stage_pool_size, match_stage_order_len,
}
use kotatsu_backend.Realtime.Types.{PlayerHandle, PlayerMatchState, MatchRoom}

-- `(first..first + count).collect()`
abbrev pub range : ℕ → ℕ → List ℕ
range first zero = []
range first (suc count) = first ∷ range (suc first) count

-- `opt.unwrap_or(d)`
abbrev pub unwrap_or {ℓ} : {A : Type ℓ} → Option A → A → A
unwrap_or none d = d
unwrap_or (some a) d = a

-- What the random generator makes of a list: `shuffle 0` shuffles the colours, and
-- `shuffle (i + 1)` the stages of the player at place `i`.
abbrev pub Shuffle : Type 0
Shuffle = ℕ → List ℕ → List ℕ

module _ (shuffle : Shuffle) where
  -- The stages of the player at a place: the first few of the shuffled pool.
  unfoldable pub stage_order_at : ℕ → List ℕ
  stage_order_at index =
      let stage_order = shuffle (index + 1) (range 0 match_stage_pool_size) in
      take (min match_stage_order_len (length stage_order)) stage_order

  -- What is written into the handle of the player at a place.
  abbrev pub laid_out : List ℕ → ℕ → PlayerHandle → PlayerHandle
  laid_out color_indices index player = record player {
    color_index = get_elem? color_indices index;
    stage_order = stage_order_at index;
    current_stage_index = 0;
  }

  -- One round of the loop.
  unfoldable pub assign_one :
      List ℕ → ℕ → String → HashMap String PlayerHandle → HashMap String PlayerHandle
  assign_one color_indices index player_id players = elim (lookup player_id players) [
    | none ↦ players
    | some player ↦ insert player_id (laid_out color_indices index player) players
  ]

  -- The loop over the sorted ids, from a place on.
  unfoldable pub assign_from :
      List ℕ → ℕ → List String → HashMap String PlayerHandle → HashMap String PlayerHandle
  unfolding assign_one
  assign_from color_indices index [] players = players
  assign_from color_indices index (player_id ∷ rest) players =
      assign_from color_indices (index + 1) rest (assign_one color_indices index player_id players)

  unfoldable pub assign_randomized_layout : MatchRoom → MatchRoom
  unfolding assign_from
  assign_randomized_layout room =
      let player_ids = sort_by (λ id. id) (map (λ e. e.0) room.players) in
      let color_indices = shuffle 0 (range 0 room_max_players) in
      record room { players = assign_from color_indices 0 player_ids room.players }

abbrev pub match_state : String × PlayerHandle → PlayerMatchState
match_state (player_id, player) = record {
  player_id = player_id;
  display_name = player.display_name;
  color_index = unwrap_or player.color_index 0;
  stage_order = player.stage_order;
  current_stage_index = player.current_stage_index;
}

unfoldable pub snapshot_players : MatchRoom → List PlayerMatchState
snapshot_players room = sort_by (λ p. p.player_id) (map match_state room.players)
