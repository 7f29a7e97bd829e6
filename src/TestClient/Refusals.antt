-- ===== src/TestClient/Refusals.antt =====
-- The server's refusals as the test client tells them apart: error.rs's texts and the test of
-- `run_one_client`.
use text.Mathlib.TextPositions.{starts_with-append}
use kotatsu_backend.Prelude.{ℕ, ◌≡◌, ◌↔◌, refl, String_eq, true, arith}
use kotatsu_backend.Realtime.Types.{cooldown_active, out_of_range}
use kotatsu_backend.Realtime.Error.{Error, to_string, display_param_update_error, display_u64}
use kotatsu_backend.TestClient.Stats.{is_cooldown_refusal}

-- Of all the server's errors, the client that changes a parameter takes the refusal of a change
-- while the cooldown runs, and no other, for the cooldown error that it waits for.
pub is_cooldown_refusal_lem :
    (e : Error)
    → (is_cooldown_refusal true "param_update_failed" (to_string e) ≡ true)
      ↔ ((t : ℕ) × (e ≡ Error.param_update (cooldown_active t)))
unfolding is_cooldown_refusal to_string display_param_update_error
is_cooldown_refusal_lem (Error.param_update (cooldown_active t)) =
    (λ h. (t, refl), λ h. rw (starts_with-append "cooldown_active:" (display_u64 t)) refl)
is_cooldown_refusal_lem (Error.param_update out_of_range) =
    (λ h. absurd (ground arith), λ (t, h). absurd (ground arith))
is_cooldown_refusal_lem Error.match_not_found =
    (λ h. absurd (ground arith), λ (t, h). absurd (ground arith))
is_cooldown_refusal_lem Error.player_not_found =
    (λ h. absurd (ground arith), λ (t, h). absurd (ground arith))
is_cooldown_refusal_lem Error.match_full =
    (λ h. absurd (ground arith), λ (t, h). absurd (ground arith))
is_cooldown_refusal_lem Error.match_not_started =
    (λ h. absurd (ground arith), λ (t, h). absurd (ground arith))
is_cooldown_refusal_lem Error.invalid_token =
    (λ h. absurd (ground arith), λ (t, h). absurd (ground arith))
is_cooldown_refusal_lem Error.token_expired =
    (λ h. absurd (ground arith), λ (t, h). absurd (ground arith))
