-- ===== src/RemoteRtt/Numbers.antt =====
-- `str::parse` of an unsigned integer, as the tools read their ports and counts.
use Prim.Native.Char.{code}
use Prim.Native.String.{[], ◌∷◌}
use kotatsu_backend.Prelude.{
  ℕ, ◌+◌, ◌-◌, ◌*◌, ◌^◌, String, Bool, ◌&&◌, Option, none, some, leb, nat_eq, if◌then◌else◌, ◌≡◌,
  refl,
}

abbrev pub u16_max : ℕ
u16_max = 2 ^ 16 - 1

-- A `u64`, and a `usize` on a 64-bit machine.
abbrev pub u64_max : ℕ
u64_max = 2 ^ 64 - 1

abbrev is_digit : ℕ → Bool
is_digit c = leb b'0' c && leb c b'9'

-- The digits behind what has been read, with the overflow of `checked_mul` and `checked_add`.
unfoldable pub parse_digits : ℕ → String → ℕ → Option ℕ
parse_digits max [] read = some read
parse_digits max (c ∷ rest) read =
    let next = read * 10 + (code c - b'0') in
    let result = parse_digits max rest next in
    if is_digit (code c) && leb next max then result else none

-- A sign `+` may stand before the digits, and there is at least one digit.
unfoldable pub parse_unsigned : ℕ → String → Option ℕ
unfolding parse_digits
parse_unsigned max [] = none
parse_unsigned max (c ∷ []) = parse_digits max (c ∷ []) 0
parse_unsigned max (c ∷ d ∷ rest) =
    if nat_eq (code c) b'+'
    then parse_digits max (d ∷ rest) 0
    else parse_digits max (c ∷ d ∷ rest) 0

parse_runs :
    (parse_unsigned u16_max "+4433" ≡ some 4433)
    × (parse_unsigned u16_max "65536" ≡ none)
    × (parse_unsigned u16_max "007" ≡ some 7)
    × (parse_unsigned u16_max "+" ≡ none)
    × (parse_unsigned u16_max "-1" ≡ none)
    × (parse_unsigned u16_max "" ≡ none)
unfolding parse_unsigned
parse_runs = (refl, refl, refl, refl, refl, refl)
