-- ===== src/RemoteRtt/MainTests.antt =====
-- Tests of RemoteRtt/Main: a run with two samples, of which the second gets lost.
use kotatsu_backend.Prelude.{
  ℕ, ℕ_eq, ◌≡◌, refl, zero, suc, String, String_eq, true, List, [], ◌∷◌, Option, none, some, ok,
  arith,
}
use kotatsu_backend.TestClient.{encode_packet, parse_reliable}
use kotatsu_backend.TestClient.Messages.{JoinMatchRes, ClientDatagram}
use kotatsu_backend.TestClient.Connect.{Received, connect_udp_socket}
use kotatsu_backend.RemoteRtt.Config.{Config}
use kotatsu_backend.RemoteRtt.Numbers.{parse_unsigned}
use kotatsu_backend.RemoteRtt.CommandLine.{
  parse_config, env_config, env_api_port, env_udp_port, env_samples, argument, set, parse_args,
  parse_u16, parse_usize,
}
use kotatsu_backend.RemoteRtt.Join.{ServerReliable, await_join, join_response, connect_and_join}
use kotatsu_backend.RemoteRtt.Measure.{encoded_pos}
use kotatsu_backend.RemoteRtt.Summary.{Printed}
use kotatsu_backend.RemoteRtt.Main.{Http, JoinSocket, main}
use kotatsu_backend.RemoteRtt.Totals.{printed_total, main_lem}
use kotatsu_backend.RemoteRtt.Tests.{var, start, net, read_pos, rounds, float, by_size}

abbrev args : List String
args = "rtt" ∷ "--samples" ∷ "2" ∷ []

abbrev two_samples : Config
two_samples = record start { samples = 2 }

config_is_read : parse_config var args ≡ ok two_samples
unfolding parse_config parse_args argument set parse_u16 parse_usize parse_unsigned env_config
    env_api_port env_udp_port env_samples
config_is_read = refl

abbrev ticket : String → JoinMatchRes
ticket id = record { player_id = id; token = "t"; udp_url = "udp://h:1" }

abbrev http : Http
http = record {
  builds = true;
  post_create = λ _. some "m_1";
  post_join = λ _ name. some (ticket name);
}

-- The first byte tells the players apart.
abbrev read_answer : List ℕ → Option ServerReliable
read_answer (zero ∷ _) = some (ServerReliable.join_ok "m_1" "rtt-a" 7)
read_answer (suc n ∷ _) = some (ServerReliable.join_ok "m_1" "rtt-b" 7)
read_answer [] = none

abbrev write_pos : ClientDatagram ℕ → Option (List ℕ)
write_pos (ClientDatagram.pos seq x y vx vy) = some (seq ∷ [])

abbrev socket : ℕ → JoinSocket
socket n = record { accepted = true; received = Received.packet (1 ∷ n ∷ []) ∷ [] }

main_example :
    (printed : Printed ℕ) × (main float
        (λ n. n)
        0
        read_answer
        (λ _. some (0 ∷ []))
        read_pos
        write_pos
        http
        net
        (socket 0)
        (socket 1)
        rounds
        var
        args
      ≡ ok printed)
    × (printed_total printed ≡ 2)
unfolding connect_and_join await_join join_response parse_reliable encode_packet connect_udp_socket
    encoded_pos
main_example =
    main_lem float (λ n. n) 0 read_answer (λ _. some (0 ∷ [])) read_pos write_pos http net
      (socket 0) (socket 1) rounds var args two_samples "m_1" (ticket "rtt-a") (ticket "rtt-b")
      (record { player_id = "rtt-a"; socket = 9000 })
      (record { player_id = "rtt-b"; socket = 9000 }) (λ n. omega arith) config_is_read refl refl
      refl refl refl refl
      (
        (
          λ e. absurd (ground arith),
          refl,
          (λ e. absurd (ground arith), (λ e. absurd (ground arith), tt)),
        ),
        ((λ e. absurd (ground arith), refl, tt), tt),
      )
