-- ===== src/RemoteRtt/Bounds.antt =====
-- The ranges of the settings that remote-rtt runs with.
use Prim.Native.Char.{code}
use Prim.Native.String.{[], ◌∷◌}
use kotatsu_backend.Prelude.{
  ℕ, ◌+◌, ◌-◌, ◌*◌, ◌≤◌, ◌<◌, ◌≡◌, String, String_eq, List, [], ◌∷◌, Option, none, some, Result, ok,
  arith, inl, inr, Option-cases, Result-cases, ◌⊎◌, refl,
}
use kotatsu_backend.Realtime.Layout.{unwrap_or}
use kotatsu_backend.RemoteRtt.Numbers.{u16_max, u64_max, parse_digits, parse_unsigned}
use kotatsu_backend.RemoteRtt.Config.{
  default_api_port, default_udp_port, default_samples, Config, Stop,
}
use kotatsu_backend.RemoteRtt.CommandLine.{
  optional, or_else, positive_or, env_api_port, env_udp_port, env_samples, bind-ok, ◌>>=◌, Flag,
  Argument, parse_u16, parse_usize, argument, set, parse_args, env_config, parse_config,
}

-- The values are within the types of their fields and there is a sample to take.
abbrev pub IsUsable : Config → Type 0
IsUsable config =
    (config.api_port ≤ u16_max)
    × (config.udp_port ≤ u16_max)
    × (0 < config.samples)
    × (config.samples ≤ u64_max)

parse_digits_le :
    (max : ℕ) (s : String) (read n : ℕ) → read ≤ max → parse_digits max s read ≡ some n → n ≤ max
unfolding parse_digits
parse_digits_le max [] read n h e = ground arith
parse_digits_le max (c ∷ s) read n h e =
    ground (arith, parse_digits_le max s (read * 10 + (code c - b'0')) n)

parse_unsigned_le : (max : ℕ) (s : String) (n : ℕ) → parse_unsigned max s ≡ some n → n ≤ max
unfolding parse_unsigned
parse_unsigned_le max [] n e = absurd (ground arith)
parse_unsigned_le max (c ∷ []) n e = parse_digits_le max (c ∷ []) 0 n (omega arith) e
parse_unsigned_le max (c ∷ d ∷ s) n e =
    ground (arith, parse_digits_le max (d ∷ s) 0 n, parse_digits_le max (c ∷ d ∷ s) 0 n)

parse_u16_le : (value flag : String) (n : ℕ) → parse_u16 value flag ≡ ok n → n ≤ u16_max
unfolding parse_u16
parse_u16_le value flag n e = ground (arith, parse_unsigned_le u16_max value n)

parse_usize_le : (value flag : String) (n : ℕ) → parse_usize value flag ≡ ok n → n ≤ u64_max
unfolding parse_usize
parse_usize_le value flag n e = ground (arith, parse_unsigned_le u64_max value n)

set-IsUsable :
    (flag : Flag) (arg value : String) (config config' : Config)
    → IsUsable config
    → set flag arg value config ≡ ok config'
    → IsUsable config'
unfolding set
set-IsUsable Flag.host arg value config config' h e = ground arith
set-IsUsable Flag.remote_ip arg value config config' h e = ground arith
set-IsUsable Flag.api_port arg value config config' h e =
    let (n, p, q) = bind-ok (parse_u16 value "--api-port") _ config' e in
    ground (arith, parse_u16_le value "--api-port" n)
set-IsUsable Flag.udp_port arg value config config' h e =
    let (n, p, q) = bind-ok (parse_u16 value arg) _ config' e in
    ground (arith, parse_u16_le value arg n)
set-IsUsable Flag.samples arg value config config' h e =
    let (n, p, q) = bind-ok (parse_usize value "--samples") _ config' e in
    ground (arith, parse_usize_le value "--samples" n)
set-IsUsable Flag.api_base_url arg value config config' h e = ground arith
set-IsUsable Flag.udp_url arg value config config' h e = ground arith

Argument-cases :
    (a : Argument)
    → ((flag : Flag) × (a ≡ Argument.takes flag)) ⊎ ((a ≡ Argument.help) ⊎ (a ≡ Argument.unknown))
Argument-cases (Argument.takes flag) = inl (flag, refl)
Argument-cases Argument.help = inr (inl refl)
Argument-cases Argument.unknown = inr (inr refl)

parse_args-IsUsable :
    (program : String) (config : Config) (args : List String) (config' : Config)
    → IsUsable config
    → parse_args program config args ≡ ok config'
    → IsUsable config'
unfolding parse_args
parse_args-IsUsable program config [] config' h e = ground arith
parse_args-IsUsable program config (arg ∷ []) config' h e = absurd (ground arith)
parse_args-IsUsable program config (arg ∷ value ∷ rest) config' h e =
    elim (Argument-cases (argument arg)) [
      | inl (flag, a) ↦
          let taken : (set flag arg value config >>= λ c. parse_args program c rest) ≡ ok config' =
            rw (a, parse_args) at e in
          let (next, p, q) = bind-ok (set flag arg value config) _ config' taken in
          parse_args-IsUsable program next rest config'
            (set-IsUsable flag arg value config next h p) q
      | inr a ↦ absurd (ground arith)
    ]

-- A number of the environment is in the range of what reads it, and so is the default.
optional-le :
    (parse : String → Result ℕ Stop) (max default : ℕ) (value : Option String) (r : Option ℕ)
    → ((text : String) (n : ℕ) → parse text ≡ ok n → n ≤ max)
    → default ≤ max
    → optional parse value ≡ ok r
    → unwrap_or r default ≤ max
optional-le parse max default none r bound h e = let same : r ≡ none = ground arith in rw same h
optional-le parse max default (some text) r bound h e =
    let (n, p, q) = bind-ok (parse text) _ r e in
    let same : r ≡ some n = ground arith in rw same (bound text n p)

module _ (var : String → Option String) (n : ℕ) where
  env_api_port_le : env_api_port var ≡ ok n → n ≤ u16_max
  unfolding env_api_port
  env_api_port_le e =
      let read = λ (value : String). parse_u16 value "API_PORT" in
      let (r, p, q) = bind-ok (optional read (var "API_PORT")) _ n e in
      let same : unwrap_or r default_api_port ≡ n = ground arith in
      rw (← same) (
        optional-le read u16_max default_api_port (var "API_PORT") r
          (λ text. parse_u16_le text "API_PORT") (omega arith) p)

  env_udp_port_le : env_udp_port var ≡ ok n → n ≤ u16_max
  unfolding env_udp_port
  env_udp_port_le e =
      let read = λ (value : String). parse_u16 value "UDP_PORT" in
      let given = or_else (var "UDP_PORT") (var "QUIC_PORT") in
      let (r, p, q) = bind-ok (optional read given) _ n e in
      let same : unwrap_or r default_udp_port ≡ n = ground arith in
      rw (← same) (
        optional-le read u16_max default_udp_port given r (λ text. parse_u16_le text "UDP_PORT")
          (omega arith) p)

  env_samples-bounds : env_samples var ≡ ok n → (0 < n) × (n ≤ u64_max)
  unfolding env_samples
  env_samples-bounds e =
      let read = λ (value : String). parse_usize value "RTT_SAMPLES" in
      let (r, p, q) = bind-ok (optional read (var "RTT_SAMPLES")) _ n e in
      let same : positive_or default_samples r ≡ n = ground arith in
      let le : unwrap_or r 0 ≤ u64_max =
        optional-le read u64_max 0 (var "RTT_SAMPLES") r (λ text. parse_usize_le text "RTT_SAMPLES")
          (omega arith) p in
      elim (Option-cases r) [ inl a ↦ ground arith | inr (m, a) ↦ ground arith ]

env_config-IsUsable :
    (var : String → Option String) (config : Config) → env_config var ≡ ok config → IsUsable config
unfolding env_config
env_config-IsUsable var config e = elim (Result-cases (env_api_port var)) [
  | inl (api, p) ↦ elim (Result-cases (env_udp_port var)) [
    | inl (udp, q) ↦ elim (Result-cases (env_samples var)) [
      | inl (count, r) ↦ ground (
        arith,
        env_api_port_le var api p,
        env_udp_port_le var udp q,
        env_samples-bounds var count r,
      )
      | inr (x, r) ↦ absurd (ground arith)
    ]
    | inr (x, q) ↦ absurd (ground arith)
  ]
  | inr (x, p) ↦ absurd (ground arith)
]

-- Whatever the environment and the arguments are, the settings that the tool runs with have ports
-- of sixteen bits and a positive number of samples of at most sixty-four bits.
pub parse_config-IsUsable :
    (var : String → Option String) (args : List String) (config : Config)
    → parse_config var args ≡ ok config
    → IsUsable config
unfolding parse_config
parse_config-IsUsable var args config e =
    let (start, p, q) = bind-ok (env_config var) _ config e in
    parse_args-IsUsable _ start _ config (env_config-IsUsable var start p) q
