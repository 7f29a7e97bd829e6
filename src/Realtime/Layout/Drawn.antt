-- ===== src/Realtime/Layout/Drawn.antt =====
-- What the layout gives each player, where the random generator's `shuffle` permutes.
use mathlib.Core.List.{Mem, mem-cons, not-mem-nil, Mem-prop}
use mathlib.Core.List.Perm
use mathlib.Core.Logic.Or
use kotatsu_backend.Prelude.{
  ℕ, suc, ◌+◌, ◌≤◌, ◌<◌, ◌≡◌, ◌≢◌, refl, sym, ◌∙◌, ap, String, String_eq, List, [], ◌∷◌, some,
  arith, length, get_elem?, map, inl, inr, eq_of_==, length-map, ==_of_eq, Bool-cases, ◌==◌,
}
use kotatsu_backend.Prelude.Order.{String_order}
use kotatsu_backend.Prelude.Perms.{get_elem?_inj, get_elem?-lt}
use kotatsu_backend.HashMap.{lookup, IsMap, IsMap-Nodup, lookup-some_mem}
use kotatsu_backend.Sort.{sort_by, sort_by-perm, length-sort_by}
use kotatsu_backend.Realtime.Magicnums.{room_max_players}
use kotatsu_backend.Realtime.Types.{MatchRoom, PlayerHandle}
use kotatsu_backend.Realtime.Layout.{Shuffle, range, laid_out, assign_randomized_layout}
use kotatsu_backend.Realtime.Layout.Loop.{assign_from-at}
use kotatsu_backend.Realtime.Layout.Shuffled.{
  IsShuffle, HasStages, shuffled-Nodup, color_at, stage_order_at-HasStages,
}

find_at : (id : String) (xs : List String) → Mem id xs → (k : ℕ) × (get_elem? xs k ≡ some id)
find_at id [] m = absurd (not-mem-nil m)
find_at id (x ∷ xs) m = elim (Bool-cases (x == id)) [
  | inl hit ↦ (0, ap some (eq_of_== x id hit))
  | inr miss ↦
      let (k, g) = find_at id xs (
        Or.elim Mem-prop (mem-cons.0 m) (λ e. absurd (ground (arith, ==_of_eq x id (sym e))))
          (λ t. t)) in
      (suc k, g)
]

module _ (shuffle : Shuffle) (perm : IsShuffle shuffle) where
  -- Each player of a valid room has a place of its own in the loop, below four.
  placed :
      (room : MatchRoom) (id : String) (p : PlayerHandle)
      → IsMap room.players
      → length room.players ≤ room_max_players
      → lookup id room.players ≡ some p
      → (k : ℕ) × (k < 4)
        × (get_elem? (sort_by (λ x. x) (map (λ e. e.0) room.players)) k ≡ some id)
        × (lookup id (assign_randomized_layout shuffle room).players
            ≡ some (laid_out shuffle (shuffle 0 (range 0 room_max_players)) (0 + k) p))
  unfolding assign_randomized_layout
  placed room id p h room4 e =
      let keys = map (λ e. e.0) room.players in
      let ids = sort_by (λ x. x) keys in
      let (k, g) =
        find_at id ids
          ((Perm.mem_iff (sort_by-perm (λ x. x) keys)).1 (lookup-some_mem id p room.players e)) in
      (
        k,
        omega (
          arith,
          get_elem?-lt ids k id g,
          length-sort_by (λ x. x) keys,
          length-map (λ e. e.0) room.players,
        ),
        g,
        assign_from-at shuffle (shuffle 0 (range 0 room_max_players)) id p 0 k ids room.players
            (Perm.nodup (Perm.symm (sort_by-perm (λ x. x) keys)) (IsMap-Nodup room.players h)) g e,
      )

  -- Where the generator's shuffle permutes, starting a match gives every player of a room of at most
  -- four one of the four colours, and four distinct stages out of five to begin with the first; the
  -- player's name, parameters, cooldown, channel and connection stay.
  pub assign_randomized_layout_lem :
      (room : MatchRoom) (id : String) (p : PlayerHandle)
      → IsMap room.players
      → length room.players ≤ room_max_players
      → lookup id room.players ≡ some p
      → (q : PlayerHandle) × (c : ℕ) × (lookup id (assign_randomized_layout shuffle room).players
          ≡ some q)
        × (q.color_index ≡ some c)
        × (c < 4)
        × HasStages q
        × (q ≡ record p {
          color_index = q.color_index;
          stage_order = q.stage_order;
          current_stage_index = 0;
        })
  assign_randomized_layout_lem room id p h room4 e =
      let colors = shuffle 0 (range 0 room_max_players) in
      let (k, lt, _, l) = placed room id p h room4 e in
      let (c, g, small) = color_at shuffle perm (0 + k) (omega arith) in
      (
        laid_out shuffle colors (0 + k) p,
        c,
        l,
        g,
        small,
        stage_order_at-HasStages shuffle perm (0 + k) p colors,
        refl,
      )

  -- Two players of a room never get the same colour.
  pub assign_randomized_layout-colors_ne :
      (room : MatchRoom) (a b : String) (p q p' q' : PlayerHandle)
      → IsMap room.players
      → length room.players ≤ room_max_players
      → lookup a room.players ≡ some p
      → lookup b room.players ≡ some q
      → a ≢ b
      → lookup a (assign_randomized_layout shuffle room).players ≡ some p'
      → lookup b (assign_randomized_layout shuffle room).players ≡ some q'
      → p'.color_index ≢ q'.color_index
  assign_randomized_layout-colors_ne room a b p q p' q' h room4 ea eb ne la lb same =
      let colors = shuffle 0 (range 0 room_max_players) in
      let ids = sort_by (λ x. x) (map (λ e. e.0) room.players) in
      let (i, i_lt, gi, li) = placed room a p h room4 ea in
      let (j, j_lt, gj, lj) = placed room b q h room4 eb in
      let (c, ci, _) = color_at shuffle perm (0 + i) (omega arith) in
      let pa : p' ≡ laid_out shuffle colors (0 + i) p = ground arith in
      let qb : q' ≡ laid_out shuffle colors (0 + j) q = ground arith in
      let cj : get_elem? colors (0 + j) ≡ some c =
        sym (ap (λ (r : PlayerHandle). r.color_index) qb)
        ∙ sym same
        ∙ ap (λ (r : PlayerHandle). r.color_index) pa
        ∙ ci in
      let k = get_elem?_inj colors (0 + i) (0 + j) c (shuffled-Nodup shuffle perm 0 4) ci cj in
      let i_eq_j : i ≡ j = omega arith in
      let same_id : some a ≡ some b = sym gi ∙ ap (get_elem? ids) i_eq_j ∙ gj in ne (ground arith)
