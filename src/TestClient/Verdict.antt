-- ===== src/TestClient/Verdict.antt =====
-- The checks at the end of `main` in test-client/src/main.rs: of the statistics of all clients, of
-- those of the client that changed a parameter, and of the room as the API shows it. A failure is
-- the text that is returned, with what it shows.
use kotatsu_backend.Prelude.{
  ℕ, String, String_eq, Bool, true, false, not, ◌||◌, List, [], ◌∷◌, Option, none, some, Result, ok,
  err, nat_eq, ltb, length, if◌then◌else◌, ◌==◌,
}
use kotatsu_backend.HashMap.{lookup}
use kotatsu_backend.Realtime.Types.{PlayerParams}
use kotatsu_backend.Realtime.Layout.{unwrap_or}
use kotatsu_backend.TestClient.Stats.{ClientStats, StatsMap}

pub record RoomPlayerRes : Type 0 where
  pub player_id : String
  pub display_name : String
  pub gravity : ℕ
  pub friction : ℕ
  pub speed : ℕ
  pub next_param_change_at_unix : ℕ

pub record GetMatchRes : Type 0 where
  pub match_id : String
  pub max_players : ℕ
  pub started_at_unix : ℕ
  pub players : List RoomPlayerRes

pub data Failure : Type 0 where
  wrong_client_count : ℕ → Failure
  missing_join_params : String → Failure
  not_default_params : String → PlayerParams → Failure
  no_param_applied : String → Failure
  too_few_players : String → ℕ → Failure
  missing_trigger_stats no_cooldown_rejection missing_observed_state : Failure
  wrong_observed_state : PlayerParams → Failure
  missing_cooldown_timestamp missing_from_snapshot : Failure
  snapshot_mismatch : ℕ → ℕ → ℕ → Failure
  snapshot_missing_timestamp : Failure

-- `return Err(..)` under a condition, and `?`.
abbrev fail_if : Bool → Failure → Result (Unit {0}) Failure → Result (Unit {0}) Failure
fail_if true failure rest = err failure
fail_if false failure rest = rest

abbrev pub differs : ℕ → ℕ → Bool
differs a b = not (nat_eq a b)

-- The body of the loop over the clients.
unfoldable pub check_client : String → ClientStats → Result (Unit {0}) Failure
check_client pid st = elim st.join_params [
  | none ↦ err (Failure.missing_join_params pid)
  | some join_params ↦
      fail_if
        (differs join_params.gravity 2
          || differs join_params.friction 2
          || differs join_params.speed 2)
        (Failure.not_default_params pid join_params)
        (fail_if (nat_eq st.param_applied_count 0) (Failure.no_param_applied pid) (
          fail_if (ltb (length st.datagram_from_players) 2)
            (Failure.too_few_players pid (length st.datagram_from_players)) (ok tt)))
]

unfoldable pub check_clients : StatsMap → Result (Unit {0}) Failure
check_clients [] = ok tt
check_clients ((pid, st) ∷ rest) = elim (check_client pid st) [
  | err failure ↦ err failure
  | ok _ ↦ check_clients rest
]

unfoldable pub check_trigger : ClientStats → Result (Unit {0}) Failure
check_trigger st =
    fail_if (not st.cooldown_error_seen) Failure.no_cooldown_rejection
      (elim st.observed_param_state [
        | none ↦ err Failure.missing_observed_state
        | some observed ↦
            fail_if
              (differs observed.gravity 3
                || differs observed.friction 2
                || differs observed.speed 2)
              (Failure.wrong_observed_state observed)
              (fail_if (nat_eq (unwrap_or st.next_param_change_at_unix 0) 0)
                Failure.missing_cooldown_timestamp (ok tt))
      ])

-- `iter().find(..)`
unfoldable pub find_player : String → List RoomPlayerRes → Option RoomPlayerRes
find_player player_id [] = none
find_player player_id (p ∷ rest) =
    if p.player_id == player_id then some p else find_player player_id rest

unfoldable pub check_room_player : RoomPlayerRes → Result (Unit {0}) Failure
check_room_player p =
    fail_if (differs p.gravity 3 || differs p.friction 2 || differs p.speed 2)
      (Failure.snapshot_mismatch p.gravity p.friction p.speed)
      (fail_if (nat_eq p.next_param_change_at_unix 0) Failure.snapshot_missing_timestamp (ok tt))

unfoldable pub check_snapshot : String → GetMatchRes → Result (Unit {0}) Failure
check_snapshot trigger_player_id room = elim (find_player trigger_player_id room.players) [
  | none ↦ err Failure.missing_from_snapshot
  | some p ↦ check_room_player p
]

unfoldable pub verdict : StatsMap → GetMatchRes → String → Result (Unit {0}) Failure
verdict stats room trigger_player_id =
    fail_if (differs (length stats) 4) (Failure.wrong_client_count (length stats))
      (elim (check_clients stats) [
        | err failure ↦ err failure
        | ok _ ↦ elim (lookup trigger_player_id stats) [
          | none ↦ err Failure.missing_trigger_stats
          | some st ↦ elim (check_trigger st) [
            | err failure ↦ err failure
            | ok _ ↦ check_snapshot trigger_player_id room
          ]
        ]
      ])
