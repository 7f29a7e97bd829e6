-- ===== src/Realtime/Layout/Loop.antt =====
-- The loop of `assign_randomized_layout`: which handles it writes, and what.
use mathlib.Core.List.{Mem, Nodup, Nodup-cons, mem-cons_self, mem-cons_of_mem}
use mathlib.Core.Option
use native.Mathlib.Nat.{add-zero}
use kotatsu_backend.Prelude.{
  ℕ, zero, suc, ◌+◌, ◌≡◌, refl, ◌∙◌, String, String_eq, List, [], ◌∷◌, some, arith, get_elem?, inl,
  inr, Option-cases, ==_of_ne, ==_of_eq, ◌==◌, if◌then◌else◌,
}
use kotatsu_backend.Prelude.Order.{String_order}
use kotatsu_backend.Prelude.Perms.{get_elem?-Mem}
use kotatsu_backend.HashMap.{HashMap, lookup, lookup-insert}
use kotatsu_backend.Realtime.Types.{PlayerHandle}
use kotatsu_backend.Realtime.Layout.{Shuffle, laid_out, assign_one, assign_from}

module _ (shuffle : Shuffle) (colors : List ℕ) where
  pub lookup-assign_one :
      (index : ℕ) (x id : String) (players : HashMap String PlayerHandle)
      → lookup id (assign_one shuffle colors index x players) ≡ (
          if x == id
          then Option.map (laid_out shuffle colors index) (lookup id players)
          else lookup id players)
  unfolding assign_one
  lookup-assign_one index x id players = elim (Option-cases (lookup x players)) [
    | inl e ↦ ground (arith, String_eq.beq_iff x id)
    | inr (p, e) ↦ ground (
      arith,
      String_eq.beq_iff x id,
      lookup-insert x id (laid_out shuffle colors index p) players,
    )
  ]

  pub assign_from-other :
      (id : String) (index : ℕ) (ids : List String) (players : HashMap String PlayerHandle)
      → ¬ Mem id ids
      → lookup id (assign_from shuffle colors index ids players) ≡ lookup id players
  unfolding assign_from
  assign_from-other id index [] players h = refl
  assign_from-other id index (x ∷ ids) players h =
      let ne = ==_of_ne x id (λ e. h (rw e mem-cons_self)) in
      ground (
        arith,
        assign_from-other id (index + 1) ids (assign_one shuffle colors index x players)
            (λ m. h (mem-cons_of_mem x m)),
        lookup-assign_one index x id players,
      )

  -- The player at place `k` of the loop is laid out with the number of that place.
  pub assign_from-at :
      (id : String) (p : PlayerHandle) (index k : ℕ) (ids : List String)
      (players : HashMap String PlayerHandle)
      → Nodup ids
      → get_elem? ids k ≡ some id
      → lookup id players ≡ some p
      → lookup id (assign_from shuffle colors index ids players)
        ≡ some (laid_out shuffle colors (index + k) p)
  unfolding assign_from
  assign_from-at id p index k [] players d g h = absurd (ground arith)
  assign_from-at id p index zero (x ∷ ids) players d g h =
      let e : x ≡ id = ground arith in
      assign_from-other id (index + 1) ids (assign_one shuffle colors index x players)
        (λ m. (Nodup-cons.0 d).0 (rw e m))
      ∙ lookup-assign_one index x id players
      ∙ rw (==_of_eq x id e, h, add-zero)
  assign_from-at id p index (suc k) (x ∷ ids) players d g h =
      let m : Mem id ids = get_elem?-Mem ids k id g in
      let ne = ==_of_ne x id (λ e. (Nodup-cons.0 d).0 (rw e m)) in
      let step : lookup id (assign_one shuffle colors index x players) ≡ some p =
        ground (arith, lookup-assign_one index x id players) in
      let e : index + 1 + k ≡ index + suc k = omega arith in
      rw (← e) (
        assign_from-at id p (index + 1) k ids (assign_one shuffle colors index x players)
          (Nodup-cons.0 d).1 g step)
