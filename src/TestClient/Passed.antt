-- ===== src/TestClient/Passed.antt =====
-- What it means that the test client prints PASS.
use kotatsu_backend.Prelude.{
  ◌≡◌, ◌≢◌, ◌↔◌, ◌≤◌, refl, String, String_eq, true, [], ◌∷◌, some, ok, arith, inl, inr,
  Option-cases, Result-cases, All, length,
}
use kotatsu_backend.HashMap.{lookup}
use kotatsu_backend.Realtime.Types.{default_params}
use kotatsu_backend.Realtime.Layout.{unwrap_or}
use kotatsu_backend.TestClient.Stats.{ClientStats, StatsMap}
use kotatsu_backend.TestClient.Verdict.{
  RoomPlayerRes, GetMatchRes, check_client, check_clients, check_trigger, find_player,
  check_room_player, check_snapshot, verdict,
}

-- The client joined with the default levels, heard of a change, and had datagrams of two players.
abbrev pub IsServed : ClientStats → Type 0
IsServed st =
    (st.join_params ≡ some default_params)
    × (st.param_applied_count ≢ 0)
    × (2 ≤ length st.datagram_from_players)

-- One change of the gravity went through, with a cooldown, and the next was refused.
abbrev pub IsThrottled : ClientStats → Type 0
IsThrottled st =
    (st.cooldown_error_seen ≡ true)
    × (st.observed_param_state ≡ some (record { gravity = 3; friction = 2; speed = 2 }))
    × (unwrap_or st.next_param_change_at_unix 0 ≢ 0)

-- The room shows the same levels, and a cooldown.
abbrev pub ShowsChange : RoomPlayerRes → Type 0
ShowsChange p =
    (p.gravity ≡ 3) × (p.friction ≡ 2) × (p.speed ≡ 2) × (p.next_param_change_at_unix ≢ 0)

abbrev pub IsShown : String → GetMatchRes → Type 0
IsShown player_id room =
    (p : RoomPlayerRes) × (find_player player_id room.players ≡ some p) × ShowsChange p

check_client_ok : (pid : String) (st : ClientStats) → (check_client pid st ≡ ok tt) ↔ IsServed st
unfolding check_client
check_client_ok pid st = elim (Option-cases st.join_params) [
  | inl e ↦ ground arith
  | inr (params, e) ↦ ground arith
]

check_trigger_ok : (st : ClientStats) → (check_trigger st ≡ ok tt) ↔ IsThrottled st
unfolding check_trigger
check_trigger_ok st = elim (Option-cases st.observed_param_state) [
  | inl e ↦ ground arith
  | inr (observed, e) ↦ ground arith
]

check_room_player_ok : (p : RoomPlayerRes) → (check_room_player p ≡ ok tt) ↔ ShowsChange p
unfolding check_room_player
check_room_player_ok p = ground arith

check_snapshot_ok :
    (id : String) (room : GetMatchRes) → (check_snapshot id room ≡ ok tt) ↔ IsShown id room
unfolding check_snapshot
check_snapshot_ok id room = elim (Option-cases (find_player id room.players)) [
  | inl e ↦ (λ h. absurd (ground arith), λ (p, found, shows). absurd (ground arith))
  | inr (p, e) ↦ (
    λ h. (p, e, (check_room_player_ok p).0 (rw (e, check_snapshot) at h)),
    λ (q, found, shows).
        let same : p ≡ q = ground arith in
        rw (found, check_snapshot) ((check_room_player_ok q).1 shows),
  )
]

check_clients_ok :
    (stats : StatsMap) → (check_clients stats ≡ ok tt) ↔ All (λ e. IsServed e.1) stats
unfolding check_clients
check_clients_ok [] = (λ h. tt, λ h. refl)
check_clients_ok ((pid, st) ∷ rest) = ground (arith, check_client_ok pid st, check_clients_ok rest)

-- Every check in turn.
verdict_parts :
    (stats : StatsMap) (room : GetMatchRes) (id : String)
    → verdict stats room id ≡ ok tt
    → (length stats ≡ 4)
      × (check_clients stats ≡ ok tt)
      × ((st : ClientStats) × (lookup id stats ≡ some st) × (check_trigger st ≡ ok tt))
      × (check_snapshot id room ≡ ok tt)
unfolding verdict
verdict_parts stats room id h = elim (Result-cases (check_clients stats)) [
  | inr (failure, c) ↦ absurd (ground arith)
  | inl (_, c) ↦ elim (Option-cases (lookup id stats)) [
    | inl l ↦ absurd (ground arith)
    | inr (st, l) ↦ elim (Result-cases (check_trigger st)) [
      | inr (failure, t) ↦ absurd (ground arith)
      | inl (_, t) ↦ (ground arith, c, (st, l, t), ground arith)
    ]
  ]
]

-- The test client prints PASS just where it has four clients in its statistics, each of them joined
-- with the default levels, heard of a change and had datagrams of two players, the client that
-- changed a parameter saw one change go through and one refused, and the room shows that change.
pub verdict_ok :
    (stats : StatsMap) (room : GetMatchRes) (trigger_player_id : String)
    → (verdict stats room trigger_player_id ≡ ok tt) ↔ (
        (length stats ≡ 4)
        × All (λ e. IsServed e.1) stats
        × ((st : ClientStats) × (lookup trigger_player_id stats ≡ some st) × IsThrottled st)
        × IsShown trigger_player_id room)
unfolding verdict
verdict_ok stats room id = (
  λ h.
      let (count, clients, (st, l, t), shown) = verdict_parts stats room id h in
      (
        count,
        (check_clients_ok stats).0 clients,
        (st, l, (check_trigger_ok st).0 t),
        (check_snapshot_ok id room).0 shown,
      ),
  λ (count, served, (st, l, throttled), shown).
      rw (count, (check_clients_ok stats).1 served, l, (check_trigger_ok st).1 throttled, verdict)
        ((check_snapshot_ok id room).1 shown),
)
