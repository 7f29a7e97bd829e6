-- ===== src/Realtime/Tests/ParamTests.antt =====
-- Tests of Params: the theorems on one step of a parameter at concrete levels.
use kotatsu_backend.Prelude.{◌≡◌, ◌∷◌, [], arith, err}
use kotatsu_backend.Realtime.Types.{ParamKind, ParamDirection, default_params, out_of_range}
use kotatsu_backend.Realtime.Params.{apply_param_change}
use kotatsu_backend.Realtime.Params.Range.{IsInRange, apply_param_change_outcome}
use kotatsu_backend.Realtime.Params.Cooldown.{change_times, Spaced, change_times-Spaced}

default_params-IsInRange : IsInRange default_params
default_params-IsInRange = record {
  gravity_low = omega arith;
  gravity_high = omega arith;
  friction_low = omega arith;
  friction_high = omega arith;
  speed_low = omega arith;
  speed_high = omega arith;
}

apply_param_change_outcome_example :
    apply_param_change default_params 0 ParamKind.friction ParamDirection.increase 100
    ≡ err out_of_range
apply_param_change_outcome_example =
    apply_param_change_outcome default_params 0 ParamKind.friction ParamDirection.increase 100
      default_params-IsInRange

-- The second attempt comes too early.
change_times-Spaced_example : Spaced 0 (
    change_times default_params 0 (
      record { kind = ParamKind.speed; direction = ParamDirection.increase; now = 100 }
      ∷ record { kind = ParamKind.speed; direction = ParamDirection.decrease; now = 103 }
      ∷ record { kind = ParamKind.gravity; direction = ParamDirection.decrease; now = 107 }
      ∷ []))
change_times-Spaced_example =
    change_times-Spaced default_params 0
      (record { kind = ParamKind.speed; direction = ParamDirection.increase; now = 100 }
        ∷ record { kind = ParamKind.speed; direction = ParamDirection.decrease; now = 103 }
        ∷ record { kind = ParamKind.gravity; direction = ParamDirection.decrease; now = 107 }
        ∷ [])
      (omega arith, (omega arith, (omega arith, tt)))
