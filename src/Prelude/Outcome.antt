-- ===== src/Prelude/Outcome.antt =====
-- Rust's `Result`, and functions on a locked state that may fail.
use mathlib.Core.Path.{◌≡◌, refl}
use mathlib.Core.Logic.{◌⊎◌, inl, inr}
use mathlib.Core.Bool.{Bool, true, false}
use mathlib.Core.Option.{Option, none, some}

pub data Result (A E : Type 0) : Type 0 where
  ok : A → Result A E
  err : E → Result A E

abbrev pub map_err : {A E F : Type 0} → (E → F) → Result A E → Result A F
map_err f (ok a) = ok a
map_err f (err e) = err (f e)

pub Result-cases :
    {A E : Type 0} (r : Result A E) → ((a : A) × (r ≡ ok a)) ⊎ ((e : E) × (r ≡ err e))
Result-cases (ok a) = inl (a, refl)
Result-cases (err e) = inr (e, refl)

-- A section that holds the lock on a state `S`. What was written before `?` returns stays written.
abbrev pub Locked : Type 0 → Type 0 → Type 0 → Type 0
Locked S E A = S → Result A E × S

infixl 5 ◌>>=◌ ◌>>◌
abbrev pub ◌>>=◌ : {S E A B : Type 0} → Locked S E A → (A → Locked S E B) → Locked S E B
◌>>=◌ m f s = let (r, s') = m s in elim r [ ok a ↦ f a s' | err e ↦ (err e, s') ]

abbrev pub ◌>>◌ : {S E A B : Type 0} → Locked S E A → Locked S E B → Locked S E B
m >> k = m >>= λ _. k

abbrev pub pure : {S E A : Type 0} → A → Locked S E A
pure a s = (ok a, s)

abbrev pub gets : {S E A : Type 0} → (S → A) → Locked S E A
gets f s = (ok (f s), s)

abbrev pub modify : {S E : Type 0} → (S → S) → Locked S E (Unit {0})
modify f s = (ok tt, f s)

-- `.ok_or_else(..)?`
abbrev pub ok_or : {S E A : Type 0} → Option A → E → Locked S E A
ok_or none e s = (err e, s)
ok_or (some a) e s = (ok a, s)

-- `if c { return Err(e) }`
abbrev pub return_err_if : {S E : Type 0} → Bool → E → Locked S E (Unit {0})
return_err_if true e s = (err e, s)
return_err_if false e s = (ok tt, s)
