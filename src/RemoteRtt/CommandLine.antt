-- ===== src/RemoteRtt/CommandLine.antt =====
-- Where remote-rtt takes its settings from: the environment first, then the command line. `env::var`
-- is a function from names.
use kotatsu_backend.Prelude.{
  ℕ, String, String_eq, List, [], ◌∷◌, Option, none, some, Result, ok, err, ltb, nat_eq,
  if◌then◌else◌, ◌==◌, ◌||◌, ◌≡◌, refl, arith,
}
use kotatsu_backend.Realtime.Layout.{unwrap_or}
use kotatsu_backend.RemoteRtt.Numbers.{u16_max, u64_max, parse_unsigned}
use kotatsu_backend.RemoteRtt.Config.{
  Config, Stop, default_host, default_api_port, default_udp_port, default_samples, usage,
}

-- `?` on a `Result`.
infixl 5 ◌>>=◌
abbrev pub ◌>>=◌ : {E A B : Type 0} → Result A E → (A → Result B E) → Result B E
ok a >>= f = f a
err e >>= f = err e

pub bind-ok :
    {E A B : Type 0} (r : Result A E) (f : A → Result B E) (b : B)
    → (r >>= f) ≡ ok b
    → (a : A) × (r ≡ ok a) × (f a ≡ ok b)
bind-ok (ok a) f b h = (a, refl, h)
bind-ok (err e) f b h = absurd (ground arith)

-- `.with_context(..)` on the result of `parse`.
abbrev parsed : String → String → Option ℕ → Result ℕ Stop
parsed flag name none = err (Stop.failed_to_parse flag name)
parsed flag name (some n) = ok n

unfoldable pub parse_u16 : String → String → Result ℕ Stop
parse_u16 value flag = parsed flag "u16" (parse_unsigned u16_max value)

unfoldable pub parse_usize : String → String → Result ℕ Stop
parse_usize value flag = parsed flag "usize" (parse_unsigned u64_max value)

-- The arms of the `match` on an argument. Where two names stand in one arm, the one used is kept.
pub data Flag : Type 0 where
  host remote_ip api_port udp_port samples api_base_url udp_url : Flag

pub data Argument : Type 0 where
  takes : Flag → Argument
  help unknown : Argument

unfoldable pub argument : String → Argument
argument arg =
    if arg == "--host"
    then Argument.takes Flag.host
    else if arg == "--remote-ip"
    then Argument.takes Flag.remote_ip
    else if arg == "--api-port"
    then Argument.takes Flag.api_port
    else if arg == "--udp-port" || arg == "--quic-port"
    then Argument.takes Flag.udp_port
    else if arg == "--samples"
    then Argument.takes Flag.samples
    else if arg == "--api-base-url"
    then Argument.takes Flag.api_base_url
    else if arg == "--udp-url" || arg == "--quic-url"
    then Argument.takes Flag.udp_url
    else if arg == "-h" || arg == "--help"
    then Argument.help
    else Argument.unknown

-- What an arm does with the value behind its argument.
unfoldable pub set : Flag → String → String → Config → Result Config Stop
set Flag.host arg value config = ok (record config { remote_host = value })
set Flag.remote_ip arg value config = ok (record config { remote_ip = some value })
set Flag.api_port arg value config = do
  port ← parse_u16 value "--api-port"
  ok (record config { api_port = port })
set Flag.udp_port arg value config = do
  port ← parse_u16 value arg
  ok (record config { udp_port = port })
set Flag.samples arg value config = do
  count ← parse_usize value "--samples"
  if nat_eq count 0 then err Stop.zero_samples else ok (record config { samples = count })
set Flag.api_base_url arg value config = ok (record config { api_base_url = some value })
set Flag.udp_url arg value config = ok (record config { udp_override_url = some value })

-- The loop over the arguments behind the program's name.
unfoldable pub parse_args : String → Config → List String → Result Config Stop
parse_args program config [] = ok config
parse_args program config (arg ∷ []) = elim (argument arg) [
  | Argument.takes flag ↦ err (Stop.missing_value arg)
  | Argument.help ↦ err (Stop.exit (usage program))
  | Argument.unknown ↦ err (Stop.unknown_argument arg (usage program))
]
parse_args program config (arg ∷ value ∷ rest) = elim (argument arg) [
  | Argument.takes flag ↦ do config' ← set flag arg value config; parse_args program config' rest
  | Argument.help ↦ err (Stop.exit (usage program))
  | Argument.unknown ↦ err (Stop.unknown_argument arg (usage program))
]

-- `.filter(|value| !value.is_empty())`
abbrev non_empty : Option String → Option String
non_empty none = none
non_empty (some s) = if s == "" then none else some s

-- `.or_else(..)` of an `Option`.
abbrev pub or_else : Option String → Option String → Option String
or_else none other = other
or_else (some s) other = some s

-- `.map(..).transpose()?`
abbrev pub optional : (String → Result ℕ Stop) → Option String → Result (Option ℕ) Stop
optional parse none = ok none
optional parse (some value) = do n ← parse value; ok (some n)

-- `.filter(|value| *value > 0).unwrap_or(DEFAULT_SAMPLES)`
abbrev pub positive_or : ℕ → Option ℕ → ℕ
positive_or default none = default
positive_or default (some n) = if ltb 0 n then n else default

-- The numbers that the environment gives, each with its default.
module _ (var : String → Option String) where
  unfoldable pub env_api_port : Result ℕ Stop
  env_api_port = do
    port ← optional (λ value. parse_u16 value "API_PORT") (var "API_PORT")
    ok (unwrap_or port default_api_port)

  unfoldable pub env_udp_port : Result ℕ Stop
  env_udp_port = do
    port ←
        optional (λ value. parse_u16 value "UDP_PORT") (or_else (var "UDP_PORT") (var "QUIC_PORT"))
    ok (unwrap_or port default_udp_port)

  unfoldable pub env_samples : Result ℕ Stop
  env_samples = do
    count ← optional (λ value. parse_usize value "RTT_SAMPLES") (var "RTT_SAMPLES")
    ok (positive_or default_samples count)

  unfoldable pub env_config : Result Config Stop
  env_config = do
    port ← env_api_port
    udp ← env_udp_port
    count ← env_samples
    ok record {
      remote_host = unwrap_or (var "REMOTE_HOST") default_host;
      remote_ip = non_empty (var "REMOTE_IP");
      api_port = port;
      udp_port = udp;
      samples = count;
      api_base_url = non_empty (var "API_BASE_URL");
      udp_override_url = non_empty (or_else (var "UDP_OVERRIDE_URL") (var "QUIC_OVERRIDE_URL"));
    }

-- The arguments behind the program's name, if the system gives one.
abbrev rest_of : List String → List String
rest_of [] = []
rest_of (program ∷ rest) = rest

abbrev program_of : List String → String
program_of [] = "remote-rtt"
program_of (program ∷ rest) = program

unfoldable pub parse_config : (String → Option String) → List String → Result Config Stop
parse_config var args = do
  config ← env_config var
  parse_args (program_of args) config (rest_of args)
