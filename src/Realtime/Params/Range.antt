-- ===== src/Realtime/Params/Range.antt =====
-- What a parameter change does to the levels.
use kotatsu_backend.Prelude.{
  ℕ, ◌+◌, ◌-◌, ◌%◌, ◌≤◌, ◌≡◌, Bool, arith, ok, err, ltb, nat_eq, if◌then◌else◌,
}
use kotatsu_backend.Realtime.Magicnums.{u64_mod}
use kotatsu_backend.Realtime.Types.{
  ParamKind, ParamDirection, PlayerParams, ParamMutation, cooldown_active, out_of_range,
}
use kotatsu_backend.Realtime.Params.{apply_param_change, get_level, set_level}

-- Gravity and speed have three stages and friction has two.
pub record IsInRange (p : PlayerParams) : Type 0 where
  pub gravity_low : 1 ≤ p.gravity
  pub gravity_high : p.gravity ≤ 3
  pub friction_low : 1 ≤ p.friction
  pub friction_high : p.friction ≤ 2
  pub speed_low : 1 ≤ p.speed
  pub speed_high : p.speed ≤ 3

-- A change of levels that are in range leaves them in range.
pub apply_param_change-IsInRange :
    (p : PlayerParams) (next : ℕ) (kind : ParamKind) (dir : ParamDirection) (now : ℕ)
    (m : ParamMutation)
    → IsInRange p
    → apply_param_change p next kind dir now ≡ ok m
    → IsInRange m.params
unfolding apply_param_change
apply_param_change-IsInRange p next ParamKind.gravity dir now m h e = ground arith
apply_param_change-IsInRange p next _ dir now m h e = ground arith

-- The level stands at the end of its range in that direction.
abbrev pub is_at_end : ParamKind → ParamDirection → PlayerParams → Bool
is_at_end kind ParamDirection.decrease p = nat_eq (get_level kind p) 1
is_at_end ParamKind.friction ParamDirection.increase p = nat_eq p.friction 2
is_at_end kind ParamDirection.increase p = nat_eq (get_level kind p) 3

-- One level moved by one step, and the two others as they were.
abbrev pub moved : ParamKind → ParamDirection → PlayerParams → PlayerParams
moved kind ParamDirection.increase p = set_level kind (get_level kind p + 1) p
moved kind ParamDirection.decrease p = set_level kind (get_level kind p - 1) p

-- Of levels in range, a change is refused as cooling down before the player's next change is
-- allowed, then as out of range exactly where the level stands at its end; every other change moves
-- that level by one step, keeps the others, and allows the next change seven seconds later.
pub apply_param_change_outcome :
    (p : PlayerParams) (next : ℕ) (kind : ParamKind) (dir : ParamDirection) (now : ℕ)
    → IsInRange p
    → apply_param_change p next kind dir now ≡ (
        if ltb now next
        then err (cooldown_active next)
        else if is_at_end kind dir p
        then err out_of_range
        else ok
            (record { params = moved kind dir p; next_param_change_at_unix = (now + 7) % u64_mod }))
unfolding apply_param_change
apply_param_change_outcome p next ParamKind.gravity ParamDirection.increase now h = ground arith
apply_param_change_outcome p next ParamKind.gravity ParamDirection.decrease now h = ground arith
apply_param_change_outcome p next ParamKind.friction ParamDirection.increase now h = ground arith
apply_param_change_outcome p next ParamKind.friction ParamDirection.decrease now h = ground arith
apply_param_change_outcome p next ParamKind.speed ParamDirection.increase now h = ground arith
apply_param_change_outcome p next ParamKind.speed ParamDirection.decrease now h = ground arith

abbrev pub opposite : ParamDirection → ParamDirection
opposite ParamDirection.increase = ParamDirection.decrease
opposite ParamDirection.decrease = ParamDirection.increase

-- A change that succeeded on levels in range is undone by the opposite change, once the cooldown
-- that it started is over.
pub apply_param_change_undo :
    (p : PlayerParams) (next : ℕ) (kind : ParamKind) (dir : ParamDirection) (now later : ℕ)
    (m : ParamMutation)
    → IsInRange p
    → apply_param_change p next kind dir now ≡ ok m
    → m.next_param_change_at_unix ≤ later
    → apply_param_change m.params m.next_param_change_at_unix kind (opposite dir) later
      ≡ ok (record { params = p; next_param_change_at_unix = (later + 7) % u64_mod })
unfolding apply_param_change
apply_param_change_undo p next ParamKind.gravity ParamDirection.increase now later m h e l =
    ground arith
apply_param_change_undo p next ParamKind.gravity ParamDirection.decrease now later m h e l =
    ground arith
apply_param_change_undo p next ParamKind.friction ParamDirection.increase now later m h e l =
    ground arith
apply_param_change_undo p next ParamKind.friction ParamDirection.decrease now later m h e l =
    ground arith
apply_param_change_undo p next ParamKind.speed ParamDirection.increase now later m h e l =
    ground arith
apply_param_change_undo p next ParamKind.speed ParamDirection.decrease now later m h e l =
    ground arith
