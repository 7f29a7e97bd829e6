-- ===== src/Realtime/Error.antt =====
-- The errors of the realtime server, and the texts that `to_string` gives of them.
use Prim.Native.String.{◌++◌ as str_append}
use kotatsu_backend.Prelude.{
  ℕ, zero, suc, ◌/◌, ◌%◌, String, [], ◌∷◌, some, none, get_elem?, ltb, if◌then◌else◌,
}
use kotatsu_backend.Realtime.Types.{ParamUpdateError, cooldown_active, out_of_range}

-- A constructor for each text that is given to `anyhow!`, and the one error that has a type.
pub data Error : Type 0 where
  match_not_found player_not_found match_full match_not_started : Error
  invalid_token token_expired : Error
  param_update : ParamUpdateError → Error

abbrev pub digit : ℕ → String
digit d =
    elim (get_elem? {A = String} ("0" ∷ "1" ∷ "2" ∷ "3" ∷ "4" ∷ "5" ∷ "6" ∷ "7" ∷ "8" ∷ "9" ∷ [])
      d) [ none ↦ "" | some s ↦ s ]

-- The decimal digits of a number below ten to the power of the fuel.
unfoldable pub decimal : ℕ → ℕ → String
decimal zero n = ""
decimal (suc fuel) n =
    let front = decimal fuel (n / 10) in
    if ltb n 10 then digit n else str_append front (digit (n % 10))

-- `{}` of a `u64`, which has at most twenty digits.
unfoldable pub display_u64 : ℕ → String
unfolding decimal
display_u64 n = decimal 20 n

-- `impl Display for ParamUpdateError`
unfoldable pub display_param_update_error : ParamUpdateError → String
unfolding display_u64
display_param_update_error (cooldown_active next_allowed_at_unix) =
    str_append "cooldown_active:" (display_u64 next_allowed_at_unix)
display_param_update_error out_of_range = "out_of_range"

unfoldable pub to_string : Error → String
unfolding display_param_update_error
to_string Error.match_not_found = "match_not_found"
to_string Error.player_not_found = "player_not_found"
to_string Error.match_full = "match_full"
to_string Error.match_not_started = "match_not_started"
to_string Error.invalid_token = "invalid_token"
to_string Error.token_expired = "token_expired"
to_string (Error.param_update e) = display_param_update_error e
