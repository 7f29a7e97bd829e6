-- ===== src/RemoteRtt/Arguments.antt =====
-- Settings written as command line arguments are read back, whatever stood there before.
use kotatsu_backend.Prelude.{
  ℕ, ◌≤◌, ◌<◌, ◌≡◌, ◌∙◌, refl, String, List, [], ◌∷◌, ◌++◌, Option, none, some, ok, arith,
}
use kotatsu_backend.Realtime.Error.{display_u64}
use kotatsu_backend.RemoteRtt.Numbers.{u16_max, u64_max}
use kotatsu_backend.RemoteRtt.Config.{Config}
use kotatsu_backend.RemoteRtt.CommandLine.{
  Flag, Argument, parse_u16, parse_usize, argument, set, parse_args, parse_config, or_else,
  env_config,
}
use kotatsu_backend.RemoteRtt.Decimal.{parse_unsigned-display_u64}
use kotatsu_backend.RemoteRtt.Bounds.{IsUsable}

-- An optional value with its name in front.
abbrev pub optional_arg : String → Option String → List String
optional_arg name none = []
optional_arg name (some value) = name ∷ value ∷ []

-- The arguments that spell out a configuration.
abbrev pub config_args : Config → List String
config_args config =
    "--host"
    ∷ config.remote_host
    ∷ "--api-port"
    ∷ display_u64 config.api_port
    ∷ "--udp-port"
    ∷ display_u64 config.udp_port
    ∷ "--samples"
    ∷ display_u64 config.samples
    ∷ (optional_arg "--remote-ip" config.remote_ip
        ++ (optional_arg "--api-base-url" config.api_base_url
            ++ optional_arg "--udp-url" config.udp_override_url))

-- The first configuration, with what it leaves open taken from the second.
abbrev pub over : Config → Config → Config
over config start = record config {
  remote_ip = or_else config.remote_ip start.remote_ip;
  api_base_url = or_else config.api_base_url start.api_base_url;
  udp_override_url = or_else config.udp_override_url start.udp_override_url;
}

-- One argument with its value.
parse_args-takes :
    (program arg value : String) (rest : List String) (flag : Flag) (config config' : Config)
    → argument arg ≡ Argument.takes flag
    → set flag arg value config ≡ ok config'
    → parse_args program config (arg ∷ value ∷ rest) ≡ parse_args program config' rest
unfolding parse_args
parse_args-takes program arg value rest flag config config' a s = rw (a, parse_args, s) refl

parse_args-options :
    (program : String) (ip api udp : Option String) (config : Config)
    → parse_args program config (
        optional_arg "--remote-ip" ip
        ++ (optional_arg "--api-base-url" api ++ optional_arg "--udp-url" udp))
      ≡ ok record config {
        remote_ip = or_else ip config.remote_ip;
        api_base_url = or_else api config.api_base_url;
        udp_override_url = or_else udp config.udp_override_url;
      }
unfolding parse_args argument set
parse_args-options program none none none config = refl
parse_args-options program none none (some z) config = refl
parse_args-options program none (some y) none config = refl
parse_args-options program none (some y) (some z) config = refl
parse_args-options program (some x) none none config = refl
parse_args-options program (some x) none (some z) config = refl
parse_args-options program (some x) (some y) none config = refl
parse_args-options program (some x) (some y) (some z) config = refl

set-api_port :
    (arg : String) (config : Config) (n : ℕ)
    → n ≤ u16_max
    → set Flag.api_port arg (display_u64 n) config ≡ ok (record config { api_port = n })
unfolding set parse_u16
set-api_port arg config n h = rw (parse_unsigned-display_u64 u16_max n h (omega arith)) refl

set-udp_port :
    (arg : String) (config : Config) (n : ℕ)
    → n ≤ u16_max
    → set Flag.udp_port arg (display_u64 n) config ≡ ok (record config { udp_port = n })
unfolding set parse_u16
set-udp_port arg config n h = rw (parse_unsigned-display_u64 u16_max n h (omega arith)) refl

set-samples :
    (arg : String) (config : Config) (n : ℕ)
    → 0 < n
    → n ≤ u64_max
    → set Flag.samples arg (display_u64 n) config ≡ ok (record config { samples = n })
unfolding set parse_usize
set-samples arg config n positive h = rw (parse_unsigned-display_u64 u64_max n h h) (ground arith)

-- The arguments that spell out a configuration whose values are in range are read as that
-- configuration, whatever the environment gave; only an address that they do not name stays as the
-- environment gave it.
pub parse_config-config_args :
    (var : String → Option String) (program : String) (config start : Config)
    → IsUsable config
    → env_config var ≡ ok start
    → parse_config var (program ∷ config_args config) ≡ ok (over config start)
unfolding parse_config argument set
parse_config-config_args var program config start h e =
    let takes = parse_args-takes program in
    let named = record start { remote_host = config.remote_host } in
    let with_api = record named { api_port = config.api_port } in
    let with_udp = record with_api { udp_port = config.udp_port } in
    rw e (
      takes "--host" config.remote_host _ Flag.host start named refl refl
      ∙ takes "--api-port" (display_u64 config.api_port) _ Flag.api_port named with_api refl
          (set-api_port "--api-port" named config.api_port h.0)
      ∙ takes "--udp-port" (display_u64 config.udp_port) _ Flag.udp_port with_api with_udp refl
          (set-udp_port "--udp-port" with_api config.udp_port h.1)
      ∙ takes "--samples" (display_u64 config.samples) _ Flag.samples with_udp
          (record with_udp { samples = config.samples }) refl
          (set-samples "--samples" with_udp config.samples h.2 h.3)
      ∙ parse_args-options program config.remote_ip config.api_base_url config.udp_override_url _)
