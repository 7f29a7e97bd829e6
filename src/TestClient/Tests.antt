-- ===== src/TestClient/Tests.antt =====
-- Tests of TestClient, with a text format of one message each way: a packet both ways, the tasks of a
-- client, the scenario on the sample server, and the verdict.
use kotatsu_backend.Realtime.State.{Server}
use kotatsu_backend.Prelude.{
  ℕ, ℕ_eq, ◌+◌, String_eq, true, false, ◌||◌, arith, ◌≡◌, ◌↔◌, refl, List, [], ◌∷◌, Option, none,
  some, ok, err, map, filter, length, nat_eq, ==_of_eq, ◌==◌, if◌then◌else◌,
}
use kotatsu_backend.HashMap.{lookup, insert}
use kotatsu_backend.Realtime.Types
use kotatsu_backend.Realtime.Types.{
  ServerReliable, ParamKind, ParamDirection, default_params, cooldown_active,
}
use kotatsu_backend.Realtime.Error.{Error, to_string}
use kotatsu_backend.Realtime.Broadcast.{senders}
use kotatsu_backend.Realtime.Udp.Handlers.{Env, handle_param_change}
use kotatsu_backend.Realtime.Samples.{env, server, alice_session, alice, lobby}
use kotatsu_backend.TestClient.{parse_reliable}
use kotatsu_backend.TestClient.Connect.{Received}
use kotatsu_backend.TestClient.Messages
use kotatsu_backend.TestClient.Settings.{settings}
use kotatsu_backend.TestClient.Messages.{ServerDatagram}
use kotatsu_backend.TestClient.Stats.{
  ClientStats, StatsMap, default_stats, on_entry, record_join, is_cooldown_refusal,
}
use kotatsu_backend.TestClient.Run.{
  Event, JoinWait, join_message, await_join, run, drain, handle_all,
}
use kotatsu_backend.TestClient.Interleaving.{observe_all, readings, run_interleaved}
use kotatsu_backend.TestClient.Counts.{
  entry_of, is_applied, is_datagram, is_refusal, any, run_counts,
}
use kotatsu_backend.TestClient.Verdict.{
  Failure, GetMatchRes, verdict, check_client, check_clients, check_trigger, check_snapshot,
  check_room_player, find_player,
}
use kotatsu_backend.TestClient.Passed.{IsThrottled}
use kotatsu_backend.TestClient.Refusals.{is_cooldown_refusal_lem}
use kotatsu_backend.TestClient.Changes.{raised, changed}
use kotatsu_backend.TestClient.Scenario.{seen, handle_param_change-IsThrottled}

-- Messages and datagrams by the first byte: 3 is a change of the client's own levels, 4 the refusal.
abbrev read_message : List ℕ → Option (Messages.ServerReliable)
read_message [] = none
read_message (n ∷ _) = elim (nat_eq n 3) [
  | true ↦ some (Messages.param_applied "p_a" 1 raised 1507 0)
  | false ↦ elim (nat_eq n 4) [
    | true ↦ some (Messages.error "param_update_failed" "cooldown_active:1507")
    | false ↦ none
  ]
]

abbrev read_position : List ℕ → Option (ServerDatagram ℕ)
read_position _ = some (ServerDatagram.pos "p_b" 1 0 0 0 0 0)

-- The answer to a join by the byte 0.
abbrev read_join : List ℕ → Option (Messages.ServerReliable)
read_join [] = none
read_join (n ∷ rest) = elim (nat_eq n 0) [
  | true ↦ some (Messages.join_ok "m_1" "p_a" default_params 0)
  | false ↦ read_message (n ∷ rest)
]

-- The change is taken before the datagram comes in, the refusal is still waiting at the end.
abbrev events : List Event
events =
    Event.read_packet (1 ∷ 3 ∷ [])
    ∷ Event.try_recv
    ∷ Event.read_packet (2 ∷ [])
    ∷ Event.try_recv
    ∷ Event.read_packet (1 ∷ 4 ∷ [])
    ∷ []

run_interleaved_example :
    drain true "p_a"
      (run read_message read_position true "p_a" events (record { stats = []; queue = [] }))
    ≡ record {
      stats = observe_all true "p_a" (readings read_message read_position events) [];
      queue = [];
    }
run_interleaved_example = run_interleaved read_message read_position true "p_a" events []

run_counts_example :
    let settled =
      (drain true "p_a" (
        run read_message read_position true "p_a" events
          (record { stats = []; queue = [] }))).stats in
    let st' = entry_of "p_a" settled in
    let rs = readings read_message read_position events in
    (st'.param_applied_count ≡ 0 + length (filter is_applied rs))
    × (st'.datagram_count ≡ 0 + length (filter is_datagram rs))
    × (st'.cooldown_error_seen ≡ (false || any (is_refusal true) rs))
    × (lookup "p_b" settled ≡ none)
unfolding lookup
run_counts_example =
    run_counts read_message read_position true "p_a" events [] "p_b"
      (λ q. absurd (ground (arith, ==_of_eq "p_a" "p_b" q)))

is_cooldown_refusal_example :
    (is_cooldown_refusal true "param_update_failed"
        (to_string (Error.param_update (cooldown_active 7)))
      ≡ true)
    ↔ ((t : ℕ) × (Error.param_update (cooldown_active 7) ≡ Error.param_update (cooldown_active t)))
is_cooldown_refusal_example = is_cooldown_refusal_lem (Error.param_update (cooldown_active 7))

abbrev soon : Env
soon = record env { now = 1503 }

handle_param_change-IsThrottled_example :
    let increase = λ (e : Env) (seq : ℕ) (state : Server).
      handle_param_change e 7001 seq ParamKind.gravity ParamDirection.increase state in
    let s' = increase soon 2 (increase env 1 server) in
    let applied = Types.param_applied "p_a" 1 raised 1507 1500000 in
    let refusal =
      Types.error "param_update_failed" (to_string (Error.param_update (cooldown_active 1507))) in
    (lookup 1 s'.channels ≡ some (applied ∷ refusal ∷ []))
    × (lookup "m_1" s'.core.matches ≡ some (changed "p_a" alice 1507 1500 lobby))
    × IsThrottled (entry_of "p_a" (handle_all true "p_a" (map seen (applied ∷ refusal ∷ [])) []))
unfolding lookup senders
handle_param_change-IsThrottled_example =
    handle_param_change-IsThrottled env soon 7001 server alice_session lobby alice [] [] refl refl
      refl refl (omega arith) (omega arith) (omega arith) refl refl

abbrev client_stats : ClientStats
client_stats = record {
  param_applied_count = 1;
  datagram_count = 9;
  datagram_from_players = ("p_b", tt) ∷ ("p_c", tt) ∷ [];
  join_params = some default_params;
  observed_param_state = some raised;
  cooldown_error_seen = true;
  next_param_change_at_unix = some 1507;
}

abbrev all_stats : StatsMap
all_stats =
    ("p_a", client_stats)
    ∷ ("p_b", client_stats)
    ∷ ("p_c", client_stats)
    ∷ ("p_d", client_stats)
    ∷ []

abbrev snapshot : GetMatchRes
snapshot = record {
  match_id = "m_1";
  max_players = 4;
  started_at_unix = 0;
  players =
      record {
        player_id = "p_a";
        display_name = "alice";
        gravity = 3;
        friction = 2;
        speed = 2;
        next_param_change_at_unix = 1507;
      }
      ∷ [];
}

verdict_runs :
    (verdict all_stats snapshot "p_a" ≡ ok tt)
    × (verdict [] snapshot "p_a" ≡ err (Failure.wrong_client_count 0))
unfolding verdict check_clients check_client check_trigger check_snapshot find_player
    check_room_player lookup
verdict_runs = (refl, refl)

-- A change that is heard before the answer to the join is passed over.
await_join_runs :
    await_join read_join "p_a" (Received.packet (1 ∷ 3 ∷ []) ∷ Received.packet (1 ∷ 0 ∷ []) ∷ []) []
    ≡ (JoinWait.joined, ("p_a", record default_stats { join_params = some default_params }) ∷ [])
unfolding await_join join_message parse_reliable on_entry record_join insert lookup
await_join_runs = refl

settings_runs : settings (λ name. if name == "TICKS" then some "12" else none) ≡ record {
  api_base = "http://127.0.0.1:8080";
  tick_ms = 32;
  ticks = 12;
  udp_override_url = none;
}
unfolding settings
settings_runs = refl
