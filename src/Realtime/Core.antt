-- ===== src/Realtime/Core.antt =====
-- Every section of the realtime server that holds the lock on `core`, as one call. Since the lock
-- makes each of them atomic, what concurrent handlers and the cleanup task do to `core` is a
-- sequence of such calls.
pub mod Valid
pub mod Players
pub mod Layout
pub mod Rooms
pub mod Deletions
pub mod Tickets
pub mod Lobby
pub mod Places
pub mod Finish
pub mod Start
pub mod Entering
pub mod Links
pub mod Reach
use kotatsu_backend.Prelude.{ℕ, String, List, [], ◌∷◌}
use kotatsu_backend.Realtime.Types.{CoreState, ParamKind, ParamDirection, SocketAddr, ChannelId}
use kotatsu_backend.Realtime.Layout.{Shuffle}
use kotatsu_backend.Realtime.Ticket
use kotatsu_backend.Realtime.Player
use kotatsu_backend.Realtime.Room
use kotatsu_backend.Realtime.ControlPlane

pub data Call : Type 0 where
  create_room : String → ℕ → Call
  issue_join_ticket : String → String → String → String → String → ℕ → Call
  start_match : Shuffle → String → ℕ → Call
  finish_player : String → String → ℕ → Call
  delete_room : String → Call
  delete_stale_lobby_rooms : ℕ → ℕ → Call
  consume_ticket : String → ℕ → Call
  register_player : String → String → String → SocketAddr → ChannelId → ℕ → Call
  remove_player : String → String → ℕ → Call
  update_player_params : String → String → ParamKind → ParamDirection → ℕ → ℕ → Call

unfoldable pub step : CoreState → Call → CoreState
step core (Call.create_room uuid now) = (ControlPlane.create_room uuid now core).1
step core (Call.issue_join_ticket url match_id name uuid token now) =
    (ControlPlane.issue_join_ticket url match_id name uuid token now core).1
step core (Call.start_match shuffle match_id now) =
    (Room.start_match_and_snapshot_players shuffle match_id now core).1
step core (Call.finish_player match_id player_id now) =
    (Room.finish_player match_id player_id now core).1
step core (Call.delete_room match_id) = (ControlPlane.delete_room match_id core).1
step core (Call.delete_stale_lobby_rooms idle_timeout_secs now) =
    (Room.delete_stale_lobby_rooms idle_timeout_secs now core).1
step core (Call.consume_ticket token now) = (Ticket.consume_ticket token now core).1
step core (Call.register_player match_id player_id name addr tx now) =
    (Player.register_player_udp match_id player_id name addr tx now core).1
step core (Call.remove_player match_id player_id now) =
    Player.remove_player match_id player_id now core
step core (Call.update_player_params match_id player_id param direction now later) =
    (Room.update_player_params match_id player_id param direction now later core).1

unfoldable pub run : CoreState → List Call → CoreState
run core [] = core
run core (call ∷ calls) = run (step core call) calls
