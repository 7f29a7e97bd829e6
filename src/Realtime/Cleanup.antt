-- ===== src/Realtime/Cleanup.antt =====
-- realtime-server/src/cleanup.rs: the task that deletes idle lobbies every second.
pub mod Rounds
use kotatsu_backend.Prelude.{ℕ, List, [], ◌∷◌}
use kotatsu_backend.Realtime.Magicnums.{room_idle_timeout_secs}
use kotatsu_backend.Realtime.Types.{CoreState}
use kotatsu_backend.Realtime.Room.{delete_stale_lobby_rooms}

-- One round of the loop.
unfoldable pub cleanup_round : ℕ → CoreState → CoreState
cleanup_round now core = (delete_stale_lobby_rooms room_idle_timeout_secs now core).1

-- Rounds at the given readings of the clock, with no other call between them.
unfoldable pub cleanup_rounds : List ℕ → CoreState → CoreState
unfolding cleanup_round
cleanup_rounds [] core = core
cleanup_rounds (now ∷ later) core = cleanup_rounds later (cleanup_round now core)
