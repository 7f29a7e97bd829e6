-- ===== src/Realtime/Layout/Shuffled.antt =====
-- The colours and stages of the layout, where the random generator's `shuffle` permutes.
use mathlib.Core.List.{Nodup, Nodup-nil, Nodup-cons, Perm}
use mathlib.Core.List.Perm
use native.Mathlib.Bridge.{le_prop}
use kotatsu_backend.Prelude.{
  ℕ, zero, suc, ◌+◌, ◌≤◌, ◌<◌, min, ◌≡◌, refl, String_eq, List, some, arith, length, get_elem?,
  take, All, All-imp,
}
use kotatsu_backend.Prelude.Order.{String_order}
use kotatsu_backend.Prelude.Perms.{
  length-perm, get_elem?-Mem, get_elem?_total, take-Mem, take-Nodup, length-take, All-Mem,
  All-of_Mem,
}
use kotatsu_backend.Realtime.Magicnums.{room_max_players, match_stage_pool_size}
use kotatsu_backend.Realtime.Types.{PlayerHandle}
use kotatsu_backend.Realtime.Layout.{Shuffle, range, stage_order_at, laid_out}

-- `SliceRandom::shuffle` permutes the list that it is given.
abbrev pub IsShuffle : Shuffle → Type 0
IsShuffle shuffle = (n : ℕ) (xs : List ℕ) → Perm (shuffle n xs) xs

-- Distinct stages of the pool, as many as a match has, from the first of them.
abbrev pub HasStages : PlayerHandle → Type 0
HasStages p =
    (length p.stage_order ≡ 4)
    × Nodup p.stage_order
    × All (λ stage. stage < 5) p.stage_order
    × (p.current_stage_index ≡ 0)

pub range-ge : (first count : ℕ) → All (λ x. first ≤ x) (range first count)
range-ge first zero = tt
range-ge first (suc count) = (
  omega arith,
  All-imp (λ x. suc first ≤ x) (λ x. first ≤ x) (range (suc first) count) (λ x h. omega arith)
      (range-ge (suc first) count),
)

pub range-lt : (first count : ℕ) → All (λ x. x < first + count) (range first count)
range-lt first zero = tt
range-lt first (suc count) = (
  omega arith,
  All-imp (λ x. x < suc first + count) (λ x. x < first + suc count) (range (suc first) count)
      (λ x h. omega arith) (range-lt (suc first) count),
)

pub range-Nodup : (first count : ℕ) → Nodup (range first count)
range-Nodup first zero = Nodup-nil
range-Nodup first (suc count) = Nodup-cons.1 (
  (λ m. absurd (
      let h : suc first ≤ first =
        All-Mem (λ x. suc first ≤ x) (λ x. le_prop) (range (suc first) count) first
          (range-ge (suc first) count) m in
      omega arith)),
  range-Nodup (suc first) count,
)

-- The shuffled colours and stages.
module _ (shuffle : Shuffle) (perm : IsShuffle shuffle) where
  pub shuffled-Nodup : (n count : ℕ) → Nodup (shuffle n (range 0 count))
  shuffled-Nodup n count = Perm.nodup (Perm.symm (perm n (range 0 count))) (range-Nodup 0 count)

  pub shuffled-lt : (n count : ℕ) → All (λ x. x < count) (shuffle n (range 0 count))
  shuffled-lt n count =
      All-of_Mem (λ x. x < count) (shuffle n (range 0 count))
        λ a m.
          All-Mem (λ x. x < count) (λ x. le_prop) (range 0 count) a
            (All-imp (λ x. x < 0 + count) (λ x. x < count) (range 0 count) (λ x h. omega arith)
              (range-lt 0 count))
            ((Perm.mem_iff (perm n (range 0 count))).0 m)

  -- Each of the four places has a colour.
  pub color_at :
      (i : ℕ)
      → i < 4
      → (c : ℕ) × (get_elem? (shuffle 0 (range 0 room_max_players)) i ≡ some c) × (c < 4)
  color_at i h =
      let colors = shuffle 0 (range 0 room_max_players) in
      let (c, e) = get_elem?_total colors i (
        omega (
          arith,
          length-perm colors (range 0 room_max_players) (perm 0 (range 0 room_max_players)),
        )) in
      (
        c,
        e,
        All-Mem (λ x. x < 4) (λ x. le_prop) colors c (shuffled-lt 0 4) (get_elem?-Mem colors i c e),
      )

  pub stage_order_at-HasStages :
      (index : ℕ) (p : PlayerHandle) (colors : List ℕ) → HasStages (laid_out shuffle colors index p)
  unfolding stage_order_at
  stage_order_at-HasStages index p colors =
      let stages = shuffle (index + 1) (range 0 match_stage_pool_size) in
      let len =
        length-perm stages (range 0 match_stage_pool_size)
          (perm (index + 1) (range 0 match_stage_pool_size)) in
      (
        omega (arith, len, length-take (min 4 (length stages)) stages),
        take-Nodup (min 4 (length stages)) stages (shuffled-Nodup (index + 1) 5),
        All-of_Mem (λ x. x < 5) (take (min 4 (length stages)) stages)
            (λ a m.
              All-Mem (λ x. x < 5) (λ x. le_prop) stages a (shuffled-lt (index + 1) 5)
                (take-Mem (min 4 (length stages)) stages a m)),
        refl,
      )
