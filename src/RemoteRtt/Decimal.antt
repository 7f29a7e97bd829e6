-- ===== src/RemoteRtt/Decimal.antt =====
-- A number that is printed in decimal is read back as itself.
use Prim.Native.Char.{Char, code}
use Prim.Native.String.{[], ◌∷◌, ◌++◌}
use Prim.Native.String.append
use Prim.Native.Nat.pow
use kotatsu_backend.Prelude.{
  ℕ, zero, suc, ◌+◌, ◌-◌, ◌*◌, ◌/◌, ◌%◌, ◌^◌, ◌≤◌, ◌<◌, ◌≡◌, ◌≢◌, refl, String, some, arith, inl,
  inr, Bool-cases, ltb,
}
use kotatsu_backend.Realtime.Error.{digit, decimal, display_u64}
use kotatsu_backend.RemoteRtt.Numbers.{u64_max, parse_digits, parse_unsigned}

parse_digits-append :
    (max : ℕ) (s t : String) (read n : ℕ)
    → parse_digits max s read ≡ some n
    → parse_digits max (s ++ t) read ≡ parse_digits max t n
unfolding parse_digits
parse_digits-append max [] t read n h =
    let same : read ≡ n = ground arith in rw (append.nil, same) refl
parse_digits-append max (c ∷ s) t read n h =
    let rest = parse_digits-append max s t (read * 10 + (code c - b'0')) n in
    rw append.cons (ground (arith, rest))

digit-code : (d : ℕ) → d < 10 → (c : Char) × (digit d ≡ c ∷ []) × (code c ≡ b'0' + d)
digit-code zero h = ("0", refl, refl)
digit-code (suc zero) h = ("1", refl, refl)
digit-code (suc (suc zero)) h = ("2", refl, refl)
digit-code (suc (suc (suc zero))) h = ("3", refl, refl)
digit-code (suc (suc (suc (suc zero)))) h = ("4", refl, refl)
digit-code (suc (suc (suc (suc (suc zero))))) h = ("5", refl, refl)
digit-code (suc (suc (suc (suc (suc (suc zero)))))) h = ("6", refl, refl)
digit-code (suc (suc (suc (suc (suc (suc (suc zero))))))) h = ("7", refl, refl)
digit-code (suc (suc (suc (suc (suc (suc (suc (suc zero)))))))) h = ("8", refl, refl)
digit-code (suc (suc (suc (suc (suc (suc (suc (suc (suc zero))))))))) h = ("9", refl, refl)
digit-code (suc (suc (suc (suc (suc (suc (suc (suc (suc (suc d)))))))))) h = absurd (omega arith)

parse_digits-digit :
    (max d read n : ℕ)
    → d < 10
    → read * 10 + d ≡ n
    → n ≤ max
    → parse_digits max (digit d) read ≡ some n
unfolding parse_digits
parse_digits-digit max d read n h e le = let (c, same, v) = digit-code d h in rw same (ground arith)

parse_digits-decimal :
    (max fuel n : ℕ) → n < 10 ^ fuel → n ≤ max → parse_digits max (decimal fuel n) 0 ≡ some n
unfolding decimal parse_digits
parse_digits-decimal max zero n h le = ground arith
parse_digits-decimal max (suc fuel) n h le = elim (Bool-cases (ltb n 10)) [
  | inl small ↦ rw small (parse_digits-digit max n 0 n (ground arith) (omega arith) le)
  | inr large ↦
      let shorter : n / 10 < 10 ^ fuel = grind (arith, pow.suc 10 fuel) in
      let front = parse_digits-decimal max fuel (n / 10) shorter (omega arith) in
      rw (large, parse_digits-append max (decimal fuel (n / 10)) (digit (n % 10)) 0 (n / 10) front)
        (parse_digits-digit max (n % 10) (n / 10) n (omega arith) (omega arith) le)
]

String-cons-ne-nil : (c : Char) (s : String) → c ∷ s ≢ []
String-cons-ne-nil c s e = cc

append-ne-nil : (s t : String) → t ≢ [] → s ++ t ≢ []
append-ne-nil [] t h = rw append.nil h
append-ne-nil (c ∷ s) t h = rw append.cons (String-cons-ne-nil c (s ++ t))

digit-ne-nil : (d : ℕ) → d < 10 → digit d ≢ []
digit-ne-nil d h = let (c, same, v) = digit-code d h in rw same (String-cons-ne-nil c [])

decimal-ne-nil : (fuel n : ℕ) → decimal (suc fuel) n ≢ []
unfolding decimal
decimal-ne-nil fuel n = elim (Bool-cases (ltb n 10)) [
  | inl small ↦ rw small (digit-ne-nil n (ground arith))
  | inr large ↦
      rw large (append-ne-nil (decimal fuel (n / 10)) _ (digit-ne-nil (n % 10) (omega arith)))
]

-- What is read as digits has no sign.
parse_unsigned-digits :
    (max : ℕ) (s : String) (n : ℕ)
    → s ≢ []
    → parse_digits max s 0 ≡ some n
    → parse_unsigned max s ≡ some n
unfolding parse_unsigned parse_digits
parse_unsigned-digits max [] n h e = absurd (h refl)
parse_unsigned-digits max (c ∷ []) n h e = e
parse_unsigned-digits max (c ∷ d ∷ s) n h e = ground arith

-- A number of at most twenty digits and at most the bound is read back from its print.
pub parse_unsigned-display_u64 :
    (max n : ℕ) → n ≤ max → n ≤ u64_max → parse_unsigned max (display_u64 n) ≡ some n
unfolding display_u64
parse_unsigned-display_u64 max n le fits =
    parse_unsigned-digits max (decimal 20 n) n (decimal-ne-nil 19 n)
      (parse_digits-decimal max 20 n (omega arith) le)
