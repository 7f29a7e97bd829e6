-- ===== src/Realtime/Params/Cooldown.antt =====
-- How often a player's parameters can change.
use kotatsu_backend.Prelude.{
  ℕ, ◌+◌, ◌%◌, ◌≤◌, ◌<◌, ◌≡◌, subst, inl, inr, List, [], ◌∷◌, ◌++◌, All, arith, Result, ok, err,
  Result-cases,
}
use kotatsu_backend.Realtime.Magicnums.{u64_mod, param_change_cooldown_secs}
use kotatsu_backend.Realtime.Types.{
  ParamKind, ParamDirection, PlayerParams, ParamMutation, ParamUpdateError,
}
use kotatsu_backend.Realtime.Params.{apply_param_change}

-- A request for a change, with the time at which the server handles it.
pub record Attempt : Type 0 where
  pub kind : ParamKind
  pub direction : ParamDirection
  pub now : ℕ

-- A change that succeeds was allowed, and puts off the next one.
apply_param_change_times :
    (p : PlayerParams) (next : ℕ) (kind : ParamKind) (dir : ParamDirection) (now : ℕ)
    (m : ParamMutation)
    → apply_param_change p next kind dir now ≡ ok m
    → (next ≤ now) × (m.next_param_change_at_unix ≡ (now + param_change_cooldown_secs) % u64_mod)
unfolding apply_param_change
apply_param_change_times p next kind dir now m e = ground arith

-- The state after an attempt, with the time of the change if there was one.
abbrev after :
    PlayerParams → ℕ → ℕ → Result ParamMutation ParamUpdateError → PlayerParams × ℕ × List ℕ
after p next now (ok m) = (m.params, m.next_param_change_at_unix, now ∷ [])
after p next now (err e) = (p, next, [])

-- The times of the attempts that succeed, each attempt on the state that those before it left.
unfoldable pub change_times : PlayerParams → ℕ → List Attempt → List ℕ
change_times p next [] = []
change_times p next (a ∷ as') =
    let (p', next', t) = after p next a.now (apply_param_change p next a.kind a.direction a.now) in
    t ++ change_times p' next' as'

-- The first time is no earlier than the bound, and each later one no earlier than the cooldown
-- after the one before.
abbrev pub Spaced : ℕ → List ℕ → Type 0
Spaced next [] = Unit {0}
Spaced next (t ∷ ts) = (next ≤ t) × Spaced (t + param_change_cooldown_secs) ts

-- Whatever is asked for and whenever, two changes of one player are at least seven seconds apart,
-- and the first is not before the time at which the player may change next. No time is within seven
-- seconds of the end of the 64-bit clock.
pub change_times-Spaced :
    (p : PlayerParams) (next : ℕ) (as' : List Attempt)
    → All (λ (a : Attempt). a.now + param_change_cooldown_secs < u64_mod) as'
    → Spaced next (change_times p next as')
unfolding change_times
change_times-Spaced p next [] h = tt
change_times-Spaced p next (a ∷ as') h =
    let step = apply_param_change p next a.kind a.direction a.now in
    elim (Result-cases step) [
      | inl (m, e) ↦
          let t = apply_param_change_times p next a.kind a.direction a.now m e in
          rw e (
            t.0,
            subst (λ n. Spaced n (change_times m.params m.next_param_change_at_unix as'))
                (omega arith) (change_times-Spaced m.params m.next_param_change_at_unix as' h.1),
          )
      | inr (x, e) ↦ rw e (change_times-Spaced p next as' h.1)
    ]
