-- ===== src/RemoteRtt/Tests.antt =====
-- Tests of RemoteRtt: settings, a join and a measurement on the sample server, and a report.
use mathlib.Core.List.{Mem}
use kotatsu_backend.Prelude.{
  ℕ, ℕ_eq, ◌≡◌, ◌↔◌, ◌⊎◌, ◌+◌, refl, zero, suc, ◌*◌, ◌/◌, String, String_eq, true, List, [], ◌∷◌,
  ◌++◌, filter_map, Option, none, some, ok, err, arith, ◌==◌, false, ==_of_eq, length, leb,
}
use kotatsu_backend.Prelude.Order.{Order}
use kotatsu_backend.HashMap.{lookup}
use kotatsu_backend.Realtime.Layout.{range}
use kotatsu_backend.Realtime.State.{Packet}
use kotatsu_backend.Realtime.Samples.{server, codec, env, alice_session, lobby, bob, ticket}
use kotatsu_backend.Realtime.Udp.Handlers.{handle_udp_packet}
use kotatsu_backend.Realtime.Error.{display_u64}
use kotatsu_backend.TestClient.{parse_reliable, parse_datagram}
use kotatsu_backend.TestClient.Messages.{JoinMatchRes, ServerDatagram}
use kotatsu_backend.TestClient.Connect.{Received, Network, connect_udp_socket}
use kotatsu_backend.RemoteRtt.Numbers.{parse_unsigned}
use kotatsu_backend.RemoteRtt.Config.{Config, Stop, api_base, udp_override}
use kotatsu_backend.RemoteRtt.CommandLine.{
  parse_config, env_config, env_api_port, env_udp_port, env_samples, argument, set, parse_args,
  parse_u16, parse_usize,
}
use kotatsu_backend.RemoteRtt.Bounds.{IsUsable, parse_config-IsUsable}
use kotatsu_backend.RemoteRtt.Arguments.{config_args, over, parse_config-config_args}
use kotatsu_backend.RemoteRtt.Join.{ServerReliable, await_join, join_response, connect_and_join}
use kotatsu_backend.RemoteRtt.Joined.{IsAnswered, await_join_ok, connect_and_join-handle_join}
use kotatsu_backend.RemoteRtt.Measure.{
  Arrival, Round, SampleStats, encoded_pos, listen, is_probe, measure_one, measure_from,
  measure_datagram_one_way,
}
use kotatsu_backend.RemoteRtt.Samples.{heard, measure_datagram_one_way_lem}
use kotatsu_backend.RemoteRtt.Probes.{probe_is_heard}
use kotatsu_backend.RemoteRtt.Summary.{Float, Printed, print_summary}
use kotatsu_backend.RemoteRtt.Reports.{IsPrintedOf, print_summary_lem}

-- An environment with one variable.
abbrev pub var : String → Option String
var name = elim (name == "UDP_PORT") [ true ↦ some "5000" | false ↦ none ]

abbrev config : Config
config = record {
  remote_host = "localhost";
  remote_ip = some "10.0.0.1";
  api_port = 80;
  udp_port = 65535;
  samples = 3;
  api_base_url = none;
  udp_override_url = none;
}

abbrev pub start : Config
start = record {
  remote_host = "kotatsu.ruxel.net";
  remote_ip = none;
  api_port = 8080;
  udp_port = 5000;
  samples = 10;
  api_base_url = none;
  udp_override_url = none;
}

env_config-start : env_config var ≡ ok start
unfolding env_config env_api_port env_udp_port env_samples parse_u16 parse_unsigned
env_config-start = refl

config-IsUsable : IsUsable config
config-IsUsable = (omega arith, omega arith, omega arith, omega arith)

parse_config-config_args_example :
    parse_config var ("rtt" ∷ config_args config) ≡ ok (over config start)
parse_config-config_args_example =
    parse_config-config_args var "rtt" config start config-IsUsable env_config-start

parse_config-IsUsable_example : IsUsable (over config start)
parse_config-IsUsable_example =
    parse_config-IsUsable var ("rtt" ∷ config_args config) (over config start)
      (parse_config-config_args var "rtt" config start config-IsUsable env_config-start)

-- The last of two values counts, zero samples are refused, and the flags' other names are known.
parse_args_runs :
    (parse_args "rtt" start ("--host" ∷ "a" ∷ "--host" ∷ "b" ∷ [])
      ≡ ok (record start { remote_host = "b" }))
    × (parse_args "rtt" start ("--samples" ∷ "0" ∷ []) ≡ err Stop.zero_samples)
    × (parse_args "rtt" start ("--quic-port" ∷ "70000" ∷ [])
        ≡ err (Stop.failed_to_parse "--quic-port" "u16"))
    × (parse_args "rtt" start ("--udp-url" ∷ []) ≡ err (Stop.missing_value "--udp-url"))
    × (udp_override config ≡ "udp://10.0.0.1:65535")
    × (api_base start ≡ "http://kotatsu.ruxel.net:8080")
unfolding parse_args argument set parse_u16 parse_usize parse_unsigned udp_override api_base
    display_u64
parse_args_runs = (refl, refl, refl, refl, refl, refl)

abbrev read : List ℕ → Option ServerReliable
read _ = some (ServerReliable.join_ok "m_1" "p_d" 1500000)

abbrev join_res : JoinMatchRes
join_res = record { player_id = "p_d"; token = "t_1"; udp_url = "udp://h:1" }

abbrev pub net : Network
net = record {
  parse_url = λ _. some (record { host_str = some "h"; port = some 1 });
  lookup_host = λ _ _. some (9000 ∷ []);
  binds = true;
  connects = λ _. true;
}

-- Behind an empty packet, which is passed over, comes the answer.
abbrev answered : List Received
answered = Received.packet [] ∷ Received.packet (1 ∷ 123 ∷ []) ∷ []

await_join_ok_example : (await_join read "p_d" answered ≡ ok tt) ↔ IsAnswered read "p_d" answered
await_join_ok_example = await_join_ok read "p_d" answered

connect_and_join-handle_join_example :
    let s' = handle_udp_packet codec env 7004 (1 ∷ 0 ∷ []) server in
    (s'.sent ≡ server.sent ++ record { dest = 7004; bytes = 1 ∷ 123 ∷ [] } ∷ [])
    × (connect_and_join read (λ _. some (0 ∷ [])) net join_res none true answered ≡ (
      ok (record { player_id = "p_d"; socket = 9000 }),
      record { dest = 9000; bytes = 1 ∷ 0 ∷ [] } ∷ [],
    ))
unfolding lookup connect_udp_socket join_response parse_reliable
connect_and_join-handle_join_example =
    connect_and_join-handle_join codec env 7004 server ticket lobby read (λ _. some (0 ∷ [])) net
      join_res none 9000 (0 ∷ []) (123 ∷ []) ([] ∷ []) [] refl refl (omega arith) refl (omega arith)
      refl refl refl refl refl refl refl (refl, tt)

-- Datagrams of the player p_a whose number is the first byte.
abbrev pub read_pos : List ℕ → Option (ServerDatagram ℕ)
read_pos [] = none
read_pos (n ∷ _) = some (ServerDatagram.pos "p_a" n n 0 0 0 1500000)

abbrev payload : ℕ → Option (List ℕ)
payload seq = some (2 ∷ seq ∷ [])

-- In the first round the probe comes behind another packet, in the others nothing comes.
abbrev pub rounds : ℕ → Round ℕ
rounds (suc zero) = record {
  sends = true;
  arrivals = Arrival.arrived (2 ∷ 9 ∷ []) 5 ∷ Arrival.arrived (2 ∷ 1 ∷ []) 7 ∷ [];
}
rounds _ = record { sends = true; arrivals = [] }

measure_datagram_one_way_example :
    (stats : SampleStats ℕ) × (measure_datagram_one_way read_pos "p_a" payload rounds 2 ≡ ok stats)
    × (stats.delivered ≡ filter_map (heard read_pos "p_a" rounds) (range 1 2))
    × (length stats.delivered + stats.lost ≡ 2)
measure_datagram_one_way_example = measure_datagram_one_way_lem read_pos "p_a" payload rounds 2 (
  (
    λ e. absurd (ground arith),
    refl,
    (λ e. absurd (ground arith), (λ e. absurd (ground arith), tt)),
  ),
  ((λ e. absurd (ground arith), refl, tt), tt),
)

measure_runs :
    measure_datagram_one_way read_pos "p_a" payload rounds 2
    ≡ ok (record { delivered = 7 ∷ []; lost = 1 })
unfolding measure_datagram_one_way measure_from measure_one listen is_probe parse_datagram
measure_runs = refl

abbrev read_probe : List ℕ → Option (ServerDatagram ℕ)
read_probe _ = some (ServerDatagram.pos "p_a" 1 0 0 0 0 1500000)

probe_is_heard_example :
    let sent : Packet = record { dest = 7002; bytes = 2 ∷ 124 ∷ [] } in
    (encoded_pos {F32 = ℕ} (λ n. 0) 0 (λ _. some (1 ∷ [])) 1 ≡ some (2 ∷ 1 ∷ []))
    × Mem sent (handle_udp_packet codec env 7001 (2 ∷ 1 ∷ []) server).sent
    × (listen {F64 = ℕ} read_probe "p_a" 1 (Arrival.arrived (2 ∷ 124 ∷ []) 7 ∷ []) ≡ ok (some 7))
unfolding lookup
probe_is_heard_example =
    probe_is_heard codec env 7001 server alice_session lobby "p_b" bob 7002 read_probe
      (λ _. some (1 ∷ [])) (λ n. 0) 0 1 (1 ∷ []) (124 ∷ []) 7 [] refl refl (refl, (refl, tt)) refl
      refl (λ e. absurd (ground (arith, ==_of_eq "p_b" "p_a" e))) refl refl refl refl

pub leb_total : (a b : ℕ) → (leb a b ≡ true) ⊎ (leb b a ≡ true)
leb_total a b = ground arith

pub leb_trans : (a b c : ℕ) → leb a b ≡ true → leb b c ≡ true → leb a c ≡ true
leb_trans a b c p q = ground arith

pub leb_antisymm : (a b : ℕ) → leb a b ≡ true → leb b a ≡ true → a ≡ b
leb_antisymm a b p q = ground arith

instance abbrev pub by_size : Order ℕ
by_size = record { le = leb; total = leb_total; trans = leb_trans; antisymm = leb_antisymm }

abbrev pub float : Float ℕ
float = record {
  zero = 0;
  sum = λ xs. 0;
  div_by_count = λ x n. x;
  round_95_percent = λ n. (n * 95 + 50) / 100;
}

abbrev stats : SampleStats ℕ
stats = record { delivered = 7 ∷ 3 ∷ []; lost = 0 }

print_summary_example :
    (printed : Printed ℕ) × (print_summary float 2 stats ≡ some printed)
    × IsPrintedOf 2 stats printed
print_summary_example = print_summary_lem float (λ n. omega arith) 2 stats
