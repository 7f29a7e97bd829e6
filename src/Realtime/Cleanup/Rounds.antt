-- ===== src/Realtime/Cleanup/Rounds.antt =====
-- When a lobby goes: the rounds of cleanup.rs.
use kotatsu_backend.Prelude.{
  ℕ, ◌+◌, ◌≡◌, String, String_eq, Bool, false, ◌||◌, List, [], ◌∷◌, none, some, arith, inl, inr,
  nat_eq, leb, if◌then◌else◌, Option-cases,
}
use kotatsu_backend.HashMap.{lookup}
use kotatsu_backend.Realtime.Magicnums.{room_idle_timeout_secs}
use kotatsu_backend.Realtime.Types.{CoreState, MatchRoom}
use kotatsu_backend.Realtime.Core.Valid.{IsValid}
use kotatsu_backend.Realtime.Core.Deletions.{delete_stale-IsValid}
use kotatsu_backend.Realtime.Core.Lobby.{delete_stale_lobby_rooms_lem}
use kotatsu_backend.Realtime.Cleanup.{cleanup_round, cleanup_rounds}

-- Some reading is at least three minutes after the time.
abbrev pub is_over : ℕ → List ℕ → Bool
is_over since [] = false
is_over since (now ∷ later) = leb (since + 180) now || is_over since later

gone :
    (times : List ℕ) (core : CoreState) (id : String)
    → IsValid core
    → lookup id core.matches ≡ none
    → lookup id (cleanup_rounds times core).matches ≡ none
unfolding cleanup_rounds
gone [] core id v h = h
gone (now ∷ later) core id v h =
    let kept = (delete_stale_lobby_rooms_lem room_idle_timeout_secs now core id "" v).1 in
    gone later (cleanup_round now core) id (delete_stale-IsValid room_idle_timeout_secs now core v)
      (ground (arith, kept))

-- While no other call is made, a lobby stays exactly as it is until the first round that is at least
-- three minutes after its last activity, and is deleted by that round; a match that has started
-- stays.
pub cleanup_rounds_lem :
    (times : List ℕ) (core : CoreState) (id : String) (room : MatchRoom)
    → IsValid core
    → lookup id core.matches ≡ some room
    → lookup id (cleanup_rounds times core).matches ≡ (
        if nat_eq room.started_at_unix 0
        then if is_over room.last_activity_unix times then none else some room
        else some room)
unfolding cleanup_rounds
cleanup_rounds_lem [] core id room v h = ground arith
cleanup_rounds_lem (now ∷ later) core id room v h =
    let kept = (delete_stale_lobby_rooms_lem room_idle_timeout_secs now core id "" v).1 in
    let v' = delete_stale-IsValid room_idle_timeout_secs now core v in
    let core' = cleanup_round now core in
    elim (Option-cases (lookup id core'.matches)) [
      | inl e ↦ ground (arith, kept, gone later core' id v' e)
      | inr (room', e) ↦ ground (arith, kept, cleanup_rounds_lem later core' id room v')
    ]
