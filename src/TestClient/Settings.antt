-- ===== src/TestClient/Settings.antt =====
-- The settings that `main` of test-client/src/main.rs takes from the environment. A number that does
-- not parse counts as missing.
use kotatsu_backend.Prelude.{ℕ, String, Option, none, some}
use kotatsu_backend.Realtime.Layout.{unwrap_or}
use kotatsu_backend.RemoteRtt.Numbers.{u64_max, parse_unsigned}

pub record Settings : Type 0 where
  pub api_base : String
  pub tick_ms : ℕ
  pub ticks : ℕ
  pub udp_override_url : Option String

abbrev default_tick_ms : ℕ
default_tick_ms = 32

abbrev default_ticks : ℕ
default_ticks = 90

-- `.ok().and_then(|v| v.parse::<u64>().ok())`
abbrev number : Option String → Option ℕ
number none = none
number (some v) = parse_unsigned u64_max v

abbrev or_else : Option String → Option String → Option String
or_else none other = other
or_else (some s) other = some s

unfoldable pub settings : (String → Option String) → Settings
unfolding parse_unsigned
settings var = record {
  api_base = unwrap_or (var "API_BASE_URL") "http://127.0.0.1:8080";
  tick_ms = unwrap_or (number (var "TICK_MS")) default_tick_ms;
  ticks = unwrap_or (number (var "TICKS")) default_ticks;
  udp_override_url = or_else (var "UDP_OVERRIDE_URL") (var "QUIC_OVERRIDE_URL");
}
