-- ===== src/TestClient/MainTests.antt =====
-- Tests of TestClient/Tasks and Main: a run of four clients that passes.
use kotatsu_backend.Prelude.{
  ℕ, ℕ_eq, ◌≡◌, ◌≢◌, ◌↔◌, refl, zero, suc, String, String_eq, true, List, [], ◌∷◌, Option, none,
  some, Result, ok, arith, ==_of_eq,
}
use kotatsu_backend.HashMap.{lookup}
use kotatsu_backend.Realtime.Types.{default_params}
use kotatsu_backend.RemoteRtt.Main.{join_url}
use kotatsu_backend.TestClient.Messages.{JoinMatchRes, ServerReliable, ServerDatagram}
use kotatsu_backend.TestClient.Connect.{Network}
use kotatsu_backend.TestClient.Settings.{Settings, settings}
use kotatsu_backend.TestClient.Tasks.{Task, TaskEvent, Clients, clients_run}
use kotatsu_backend.TestClient.Isolation.{own_events, run_alone, clients_run_alone}
use kotatsu_backend.TestClient.Main.{Http, MainError, join_all, names, main}
use kotatsu_backend.TestClient.Pass.{IsPassed, main_ok}

abbrev id_of_byte : ℕ → String
id_of_byte zero = "p1"
id_of_byte (suc zero) = "p2"
id_of_byte (suc (suc zero)) = "p3"
id_of_byte _ = "p4"

-- The first byte says what the message is.
abbrev read_reliable : List ℕ → Option ServerReliable
read_reliable (zero ∷ n ∷ _) = some (ServerReliable.join_ok "m_1" (id_of_byte n) default_params 7)
read_reliable (suc zero ∷ _) =
    some
      (ServerReliable.param_applied "p1" 1 (record { gravity = 3; friction = 2; speed = 2 }) 1507 7)
read_reliable (suc (suc _) ∷ _) =
    some (ServerReliable.error "param_update_failed" "cooldown_active: next=1507")
read_reliable _ = none

abbrev read_datagram : List ℕ → Option (ServerDatagram ℕ)
read_datagram (n ∷ _) = some (ServerDatagram.pos (id_of_byte n) 1 0 0 0 0 7)
read_datagram [] = none

-- What one client meets between its join and its end.
abbrev client_events : ℕ → List (ℕ × TaskEvent) → List (ℕ × TaskEvent)
client_events i rest =
    (i, TaskEvent.packet (1 ∷ 0 ∷ i ∷ []))
    ∷ (i, TaskEvent.packet (2 ∷ 2 ∷ []))
    ∷ (i, TaskEvent.packet (1 ∷ 1 ∷ []))
    ∷ (i, TaskEvent.packet (2 ∷ 3 ∷ []))
    ∷ (i, TaskEvent.try_recv)
    ∷ rest

-- The first client is refused its second change; all clients end at the end.
abbrev events : List (ℕ × TaskEvent)
events = client_events 0 (
    client_events 1 (
      client_events 2 (
        client_events 3 (
          (0, TaskEvent.packet (1 ∷ 2 ∷ []))
          ∷ (0, TaskEvent.try_recv)
          ∷ (0, TaskEvent.finish)
          ∷ (1, TaskEvent.finish)
          ∷ (2, TaskEvent.finish)
          ∷ (3, TaskEvent.finish)
          ∷ []))))

abbrev net : Network
net = record {
  parse_url = λ _. some (record { host_str = some "h"; port = some 1 });
  lookup_host = λ _ _. some (9000 ∷ []);
  binds = true;
  connects = λ _. true;
}

abbrev http : Http
http = record {
  post_create = λ _. some "m_1";
  post_join = λ _ name. some (record { player_id = name; token = "t"; udp_url = "udp://h:1" });
  get_match = λ _. some (record {
    match_id = "m_1";
    max_players = 4;
    started_at_unix = 0;
    players =
        record {
          player_id = "p1";
          display_name = "p1";
          gravity = 3;
          friction = 2;
          speed = 2;
          next_param_change_at_unix = 1507;
        }
        ∷ [];
  });
}

abbrev run : Result (Unit {0}) MainError
run = main read_reliable read_datagram (λ _. some (0 ∷ [])) http net (λ _. true) events (λ _. none)

main_ok_example :
    let config : Settings = settings (λ _. none) in
    (run ≡ ok tt) ↔ (
      (match_id : String) × (first : JoinMatchRes) × (others : List JoinMatchRes) × (some "m_1"
        ≡ some match_id)
      × (join_all (http.post_join (join_url config.api_base match_id)) names
          ≡ some (first ∷ others))
      × IsPassed read_reliable read_datagram
          (λ _. some (0 ∷ []))
          http
          net
          (λ _. true)
          events
          (λ _. none)
          config
          match_id
          first
          others)
main_ok_example =
    main_ok read_reliable read_datagram (λ _. some (0 ∷ [])) http net (λ _. true) events (λ _. none)

-- Two clients: the first one has the index 0.
abbrev two_ids : ℕ → String
two_ids zero = "p1"
two_ids (suc _) = "p2"

two_ids_distinct : (j : ℕ) → j ≢ 0 → two_ids j ≢ two_ids 0
two_ids_distinct zero n = λ e. absurd (n refl)
two_ids_distinct (suc j) n = λ e. absurd (ground (arith, ==_of_eq "p2" "p1" e))

abbrev waiting : Clients
waiting = record { stats = []; tasks = λ _. Task.joining }

clients_run_alone_example :
    let after = clients_run read_reliable read_datagram two_ids events waiting in
    let (task, stats) =
      run_alone read_reliable read_datagram true "p1" (own_events 0 events) Task.joining [] in
    (after.tasks 0 ≡ task) × (lookup "p1" after.stats ≡ lookup "p1" stats)
clients_run_alone_example =
    clients_run_alone read_reliable read_datagram two_ids 0 two_ids_distinct events waiting
      Task.joining [] refl refl
