-- ===== src/Realtime/Tests/LayoutTests.antt =====
-- Tests of Layout, with a generator that leaves every list as it is.
use mathlib.Core.List.Perm
use kotatsu_backend.Prelude.{ℕ, ◌≡◌, ◌<◌, refl, arith, some, String_eq}
use kotatsu_backend.Prelude.Order.{String_order}
use kotatsu_backend.HashMap.{lookup}
use kotatsu_backend.Realtime.Types.{PlayerHandle}
use kotatsu_backend.Realtime.Layout.{assign_randomized_layout}
use kotatsu_backend.Realtime.Layout.Shuffled.{IsShuffle, HasStages}
use kotatsu_backend.Realtime.Layout.Drawn.{assign_randomized_layout_lem}
use kotatsu_backend.Realtime.Samples.{no_shuffle, lobby, alice}

no_shuffle-IsShuffle : IsShuffle no_shuffle
no_shuffle-IsShuffle i xs = Perm.refl xs

assign_randomized_layout_example :
    let room' = assign_randomized_layout no_shuffle lobby in
    (q : PlayerHandle) × (c : ℕ) × (lookup "p_a" room'.players ≡ some q)
    × (q.color_index ≡ some c)
    × (c < 4)
    × HasStages q
    × (q ≡ record alice {
      color_index = q.color_index;
      stage_order = q.stage_order;
      current_stage_index = 0;
    })
unfolding lookup
assign_randomized_layout_example =
    assign_randomized_layout_lem no_shuffle no_shuffle-IsShuffle lobby "p_a" alice
      (refl, (refl, tt)) (omega arith) refl
