-- ===== src/RemoteRtt/Config.antt =====
-- The settings of remote-rtt and the texts made of them.
use Prim.Native.String.{◌++◌ as str_append}
use kotatsu_backend.Prelude.{ℕ, String, List, [], ◌∷◌, Option, none, some}
use kotatsu_backend.Realtime.Error.{display_u64}
use kotatsu_backend.Realtime.Layout.{unwrap_or}

abbrev pub default_host : String
default_host = "kotatsu.ruxel.net"

abbrev pub default_api_port : ℕ
default_api_port = 8080

abbrev pub default_udp_port : ℕ
default_udp_port = 4433

abbrev pub default_samples : ℕ
default_samples = 10

pub record Config : Type 0 where
  pub remote_host : String
  pub remote_ip : Option String
  pub api_port : ℕ
  pub udp_port : ℕ
  pub samples : ℕ
  pub api_base_url : Option String
  pub udp_override_url : Option String

-- Why `parse_config` gives no configuration. A number that does not parse names what it was given
-- for and the type; `exit` is the end of the process, with the text printed.
pub data Stop : Type 0 where
  failed_to_parse : String → String → Stop
  missing_value : String → Stop
  zero_samples : Stop
  unknown_argument : String → String → Stop
  exit : String → Stop

-- The texts joined: `format!` of a literal with arguments.
abbrev pub concat : List String → String
concat [] = ""
concat (s ∷ rest) = str_append s (concat rest)

-- `Config::api_base`
unfoldable pub api_base : Config → String
api_base config = elim config.api_base_url [
  | some url ↦ url
  | none ↦
      let target = unwrap_or config.remote_ip config.remote_host in
      concat ("http://" ∷ target ∷ ":" ∷ display_u64 config.api_port ∷ [])
]

-- `Config::udp_override`
unfoldable pub udp_override : Config → String
udp_override config = elim config.udp_override_url [
  | some url ↦ url
  | none ↦
      let target = unwrap_or config.remote_ip config.remote_host in
      concat ("udp://" ∷ target ∷ ":" ∷ display_u64 config.udp_port ∷ [])
]

-- A backslash at the end of a line of the source drops the spaces before the next line.
unfoldable pub usage : String → String
usage program = concat (
    "Usage: "
    ∷ program
    ∷ " [options]\n\nMeasures post-connect UDP datagram one-way latency over\n"
    ∷ "client A -> server -> client B.\n\nOptions:\n"
    ∷ "--host <host>            Remote hostname (default: "
    ∷ default_host
    ∷ ")\n--remote-ip <ip>         Use this IP for API/UDP instead of resolving the host\n"
    ∷ "--api-port <port>        HTTP API port (default: "
    ∷ display_u64 default_api_port
    ∷ ")\n--udp-port <port>        UDP port (default: "
    ∷ display_u64 default_udp_port
    ∷ ")\n--samples <count>        Number of datagram samples (default: "
    ∷ display_u64 default_samples
    ∷ ")\n--api-base-url <url>     Override the full HTTP API base URL\n"
    ∷ "--udp-url <url>          Override the full UDP URL\n"
    ∷ "-h, --help               Show this help\n\nEnvironment fallback:\n"
    ∷ "REMOTE_HOST, REMOTE_IP, API_PORT, UDP_PORT, RTT_SAMPLES,\n"
    ∷ "API_BASE_URL, UDP_OVERRIDE_URL\n"
    ∷ [])
