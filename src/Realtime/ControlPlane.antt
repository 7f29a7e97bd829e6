-- ===== src/Realtime/ControlPlane.antt =====
-- realtime-server/src/grpc_service.rs: the handlers of the control plane. The clock and the fresh
-- identifiers of `Uuid::new_v4` are arguments.
pub mod Listing
use Prim.Native.Char.{code}
use Prim.Native.String.{◌++◌ as str_append}
use kotatsu_backend.Prelude.{
  ℕ, ◌+◌, ◌%◌, String, String_eq, Bool, true, false, not, ◌&&◌, ◌||◌, List, [], ◌∷◌, Option, none,
  some, map, filter, length, nat_eq, leb, if◌then◌else◌, ◌==◌, map_err, Result, ok, err,
  Result-cases, Locked, pure, gets, modify, ok_or, return_err_if, ◌>>=◌, ◌>>◌,
}
use kotatsu_backend.Prelude.Order.{String_order}
use kotatsu_backend.HashMap.{HashMap, lookup, contains_key, insert, remove, retain}
use kotatsu_backend.Sort.{sort_by}
use kotatsu_backend.Realtime.Magicnums.{room_max_players, token_ttl_secs, u64_mod}
use kotatsu_backend.Realtime.Types.{
  CoreState, MatchRoom, PlayerHandle, PlayerMatchState, Ticket, ServerReliable, match_started,
  new_room,
}
use kotatsu_backend.Realtime.Error.{Error, to_string}
use kotatsu_backend.Realtime.Layout.{Shuffle}
use kotatsu_backend.Realtime.Room.{start_match_and_snapshot_players, finish_player}
use kotatsu_backend.Realtime.Broadcast.{broadcast_reliable_udp}
use kotatsu_backend.Realtime.State.{Server, on_core}
use kotatsu_backend.Realtime.Status.{
  Code, Status, RoomPlayer, RoomSummary, CreateRoomResponse, IssueJoinTicketResponse,
  StartRoomResponse, FinishRoomResponse,
}

abbrev pub match_not_found : Status
match_not_found = record { code = Code.not_found; message = "match_not_found" }

abbrev pub room_player : String × PlayerHandle → RoomPlayer
room_player (id, p) = record {
  player_id = id;
  display_name = p.display_name;
  gravity = p.params.gravity;
  friction = p.params.friction;
  speed = p.params.speed;
  next_param_change_at_unix = p.next_param_change_at_unix;
}

unfoldable pub room_players : MatchRoom → List RoomPlayer
room_players room = sort_by (λ p. p.player_id) (map room_player room.players)

-- `format!("m_{}", uuid)`
abbrev pub match_id_of : String → String
match_id_of uuid = str_append "m_" uuid

unfoldable pub create_room : String → ℕ → Locked CoreState Status CreateRoomResponse
create_room uuid now = do
  let match_id = match_id_of uuid
  modify (λ core. record core { matches = insert match_id (new_room now) core.matches })
  pure (record { match_id = match_id; max_players = room_max_players })

abbrev pub room_summary : String × MatchRoom → RoomSummary
room_summary (match_id, room) = record {
  match_id = match_id;
  max_players = room_max_players;
  players = room_players room;
  started_at_unix = room.started_at_unix;
}

unfoldable pub list_rooms : CoreState → List RoomSummary
list_rooms core =
    sort_by (λ r. r.match_id)
      (map room_summary (filter (λ e. nat_eq e.1.started_at_unix 0) core.matches))

-- `char::is_whitespace`, the property White_Space of Unicode.
unfoldable is_whitespace : ℕ → Bool
is_whitespace c =
    (leb 9 c && leb c 13)
    || nat_eq c 32
    || nat_eq c 0x85
    || nat_eq c 0xa0
    || nat_eq c 0x1680
    || (leb 0x2000 c && leb c 0x200a)
    || nat_eq c 0x2028
    || nat_eq c 0x2029
    || nat_eq c 0x202f
    || nat_eq c 0x205f
    || nat_eq c 0x3000

-- `s.trim().is_empty()`
unfoldable pub is_blank : String → Bool
unfolding is_whitespace
is_blank String.[] = true
is_blank (String.◌∷◌ c s) = is_whitespace (code c) && is_blank s

-- The ticket that is stored: the player's id is made of a fresh identifier.
abbrev pub issued_ticket : String → String → String → ℕ → Ticket
issued_ticket req_match_id req_display_name uuid now = record {
  match_id = req_match_id;
  player_id = str_append "p_" uuid;
  display_name = if is_blank req_display_name then "player" else req_display_name;
  expires_at_unix = (now + token_ttl_secs) % u64_mod;
}

-- The two fresh identifiers make the player's id and the token.
unfoldable pub issue_join_ticket :
    String → String → String → String → String → ℕ → Locked CoreState Status IssueJoinTicketResponse
issue_join_ticket udp_public_url req_match_id req_display_name uuid token now = do
  room ← ok_or (← gets (λ core. lookup req_match_id core.matches)) match_not_found
  return_err_if (leb room_max_players (length room.players))
      (record { code = Code.failed_precondition; message = "match_full" })
  let ticket = issued_ticket req_match_id req_display_name uuid now
  modify (λ core. record core {
    matches = insert req_match_id (record room { last_activity_unix = now }) core.matches;
    tickets = insert token ticket core.tickets;
  })
  pure (record {
    match_id = req_match_id;
    player_id = ticket.player_id;
    token = token;
    token_expires_at_unix = ticket.expires_at_unix;
    udp_url = udp_public_url;
  })

-- `GetRoomResponse` has the fields of a summary.
unfoldable pub get_room : String → CoreState → Result RoomSummary Status
get_room match_id core = elim (lookup match_id core.matches) [
  | none ↦ err match_not_found
  | some room ↦ ok (room_summary (match_id, room))
]

-- The second section of `start_room`, after the lock on `core` has been given back.
unfoldable pub announce_start : String → ℕ → Bool → List PlayerMatchState → ℕ → Server → Server
announce_start match_id started_at_unix just_started players now_ms s =
    if just_started
    then broadcast_reliable_udp match_id (match_started match_id started_at_unix players now_ms) s
    else s

unfoldable pub start_room : Shuffle → String → ℕ → ℕ → Locked Server Status StartRoomResponse
unfolding announce_start
start_room shuffle match_id now now_ms s =
    let (r, s') = on_core (start_match_and_snapshot_players shuffle match_id now) s in
    elim r [
      | err e ↦ (err match_not_found, s')
      | ok (started_at_unix, just_started, players) ↦ (
        ok (record { match_id = match_id; started_at_unix = started_at_unix }),
        announce_start match_id started_at_unix just_started players now_ms s',
      )
    ]

-- The match on the text of the error.
unfoldable pub finish_status : Error → Status
finish_status e =
    if to_string e == "match_not_found"
    then match_not_found
    else if to_string e == "player_not_found"
    then record { code = Code.not_found; message = "player_not_found" }
    else if to_string e == "match_not_started"
    then record { code = Code.failed_precondition; message = "match_not_started" }
    else record { code = Code.internal; message = "finish_room_failed" }

unfoldable pub finish_room : String → String → ℕ → Locked CoreState Status FinishRoomResponse
finish_room match_id player_id now core =
    let (r, core') = finish_player match_id player_id now core in
    elim r [
      | err e ↦ (err (finish_status e), core')
      | ok (rank, finished_player_count, total_players) ↦ (
        ok (record {
          match_id = match_id;
          player_id = player_id;
          rank = rank;
          finished_player_count = finished_player_count;
          total_players = total_players;
        }),
        core',
      )
    ]

unfoldable pub delete_room : String → Locked CoreState Status (Unit {0})
delete_room match_id = do
  return_err_if (not (← gets (λ core. contains_key match_id core.matches))) match_not_found
  modify (λ core. record core {
    matches = remove match_id core.matches;
    tickets = retain (λ ticket. not (ticket.match_id == match_id)) core.tickets;
  })
