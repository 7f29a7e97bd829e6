-- ===== src/Realtime/Params.antt =====
-- realtime-server/src/params.rs: one step of a player's parameters.
pub mod Range
pub mod Cooldown
use kotatsu_backend.Prelude.{
  ℕ, ◌+◌, ◌-◌, ◌%◌, min, Bool, ◌&&◌, ltb, leb, if◌then◌else◌, Result, ok, err,
}
use kotatsu_backend.Realtime.Magicnums.{
  param_min_level, param_max_level_three_stage, param_max_level_friction,
  param_change_cooldown_secs, u64_mod,
}
use kotatsu_backend.Realtime.Types.{
  ParamKind, ParamDirection, PlayerParams, ParamMutation, ParamUpdateError, cooldown_active,
  out_of_range,
}

unfoldable pub param_level_bounds : ParamKind → ℕ × ℕ
param_level_bounds ParamKind.gravity = (param_min_level, param_max_level_three_stage)
param_level_bounds ParamKind.speed = (param_min_level, param_max_level_three_stage)
param_level_bounds ParamKind.friction = (param_min_level, param_max_level_friction)

-- `slot`, read and written.
abbrev pub get_level : ParamKind → PlayerParams → ℕ
get_level ParamKind.gravity p = p.gravity
get_level ParamKind.friction p = p.friction
get_level ParamKind.speed p = p.speed

abbrev pub set_level : ParamKind → ℕ → PlayerParams → PlayerParams
set_level ParamKind.gravity v p = record p { gravity = v }
set_level ParamKind.friction v p = record p { friction = v }
set_level ParamKind.speed v p = record p { speed = v }

-- `saturating_add(1)` and `saturating_sub(1)` of a `u8`.
unfoldable pub step_level : ParamDirection → ℕ → ℕ
step_level ParamDirection.increase v = min (v + 1) 255
step_level ParamDirection.decrease v = v - 1

unfoldable pub apply_param_change :
    PlayerParams → ℕ → ParamKind → ParamDirection → ℕ → Result ParamMutation ParamUpdateError
unfolding param_level_bounds step_level
apply_param_change params next_param_change_at_unix param direction now_unix =
    let candidate = step_level direction (get_level param params) in
    let (min_level, max_level) = param_level_bounds param in
    if ltb now_unix next_param_change_at_unix
    then err (cooldown_active next_param_change_at_unix)
    else if leb min_level candidate && leb candidate max_level
    then ok (record {
      params = set_level param candidate params;
      next_param_change_at_unix = (now_unix + param_change_cooldown_secs) % u64_mod;
    })
    else err out_of_range
