-- ===== src/Api/Handlers.antt =====
-- The handlers of api-server/src/main.rs. Each takes the call of the control plane that it makes,
-- from what is sent to what comes back, and how a status is printed by `{e}`.
use Prim.Native.String.{◌++◌ as str_append}
use kotatsu_backend.Prelude.{ℕ, ◌%◌, String, true, List, none, some, map, length, Result, ok, err}
use kotatsu_backend.Realtime.Magicnums.{u32_mod}
use kotatsu_backend.Realtime.Status.{
  Code, Status, RoomPlayer, RoomSummary, CreateRoomResponse, IssueJoinTicketResponse,
  StartRoomResponse, FinishRoomResponse,
}
use kotatsu_backend.Api.Documentation.{api_doc}
use kotatsu_backend.Api.Types.{
  RoomPlayerRes, MatchSummaryRes, JoinMatchReq, FinishMatchReq, Body, Response, status_ok,
  status_no_content, status_not_found, status_conflict, status_bad_gateway,
}

abbrev pub respond : ℕ → Body → Response
respond status body = record { status = status; body = body }

unfoldable pub health : Response
health = respond status_ok (Body.health true)

unfoldable pub openapi : Response
openapi = respond status_ok (Body.openapi api_doc)

abbrev pub room_player_res : RoomPlayer → RoomPlayerRes
room_player_res p = record {
  player_id = p.player_id;
  display_name = p.display_name;
  gravity = p.gravity;
  friction = p.friction;
  speed = p.speed;
  next_param_change_at_unix = p.next_param_change_at_unix;
}

abbrev pub match_summary_res : RoomSummary → MatchSummaryRes
match_summary_res room = record {
  match_id = room.match_id;
  max_players = room.max_players;
  player_count = length room.players % u32_mod;
  started_at_unix = room.started_at_unix;
  players = map room_player_res room.players;
}

-- `req.display_name.unwrap_or_default()`
unfoldable pub requested_name : JoinMatchReq → String
requested_name req = elim req.display_name [ none ↦ "" | some name ↦ name ]

module _ (display : Status → String) where
  abbrev pub control_plane_error : Status → Response
  control_plane_error e =
      respond status_bad_gateway (Body.error (str_append "control_plane_error:" (display e)))

  abbrev pub not_found : Response
  not_found = respond status_not_found (Body.error "match_not_found")

  -- The arms that `get_match`, `start_match` and `delete_match` share.
  unfoldable pub match_error : Status → Response
  match_error e = elim e.code [ Code.not_found ↦ not_found | _ ↦ control_plane_error e ]

  unfoldable pub list_matches : Result (List RoomSummary) Status → Response
  list_matches (ok rooms) = respond status_ok (Body.list_matches (map match_summary_res rooms))
  list_matches (err e) = control_plane_error e

  unfoldable pub create_match : Result CreateRoomResponse Status → Response
  create_match (ok r) =
      respond status_ok
        (Body.create_match (record { match_id = r.match_id; max_players = r.max_players }))
  create_match (err e) = control_plane_error e

  unfoldable pub join_response : Result IssueJoinTicketResponse Status → Response
  join_response (ok r) = respond status_ok (
      Body.join_match (record {
        match_id = r.match_id;
        player_id = r.player_id;
        token = r.token;
        udp_url = r.udp_url;
        token_expires_at_unix = r.token_expires_at_unix;
      }))
  join_response (err e) = elim e.code [
    | Code.not_found ↦ not_found
    | Code.failed_precondition ↦ respond status_conflict (Body.error "match_full")
    | _ ↦ control_plane_error e
  ]

  unfoldable pub get_response : Result RoomSummary Status → Response
  unfolding match_error
  get_response (ok r) = respond status_ok (
      Body.get_match (record {
        match_id = r.match_id;
        max_players = r.max_players;
        started_at_unix = r.started_at_unix;
        players = map room_player_res r.players;
      }))
  get_response (err e) = match_error e

  unfoldable pub start_response : Result StartRoomResponse Status → Response
  unfolding match_error
  start_response (ok r) =
      respond status_ok
        (Body.start_match (record { match_id = r.match_id; started_at_unix = r.started_at_unix }))
  start_response (err e) = match_error e

  unfoldable pub finish_response : Result FinishRoomResponse Status → Response
  finish_response (ok r) = respond status_ok (
      Body.finish_match (record {
        match_id = r.match_id;
        player_id = r.player_id;
        rank = r.rank;
        finished_player_count = r.finished_player_count;
        total_players = r.total_players;
      }))
  finish_response (err e) = elim e.code [
    | Code.not_found ↦ respond status_not_found (Body.error e.message)
    | Code.failed_precondition ↦ respond status_conflict (Body.error e.message)
    | _ ↦ control_plane_error e
  ]

  unfoldable pub delete_response : Result (Unit {0}) Status → Response
  unfolding match_error
  delete_response (ok _) = respond status_no_content Body.empty
  delete_response (err e) = match_error e

  unfoldable pub join_match :
      (String → String → Result IssueJoinTicketResponse Status) → String → JoinMatchReq → Response
  unfolding join_response requested_name
  join_match issue_join_ticket match_id req =
      join_response (issue_join_ticket match_id (requested_name req))

  unfoldable pub get_match : (String → Result RoomSummary Status) → String → Response
  unfolding get_response
  get_match get_room match_id = get_response (get_room match_id)

  unfoldable pub start_match : (String → Result StartRoomResponse Status) → String → Response
  unfolding start_response
  start_match start_room match_id = start_response (start_room match_id)

  unfoldable pub finish_match :
      (String → String → Result FinishRoomResponse Status) → String → FinishMatchReq → Response
  unfolding finish_response
  finish_match finish_room match_id req = finish_response (finish_room match_id req.player_id)

  unfoldable pub delete_match : (String → Result (Unit {0}) Status) → String → Response
  unfolding delete_response
  delete_match delete_room match_id = delete_response (delete_room match_id)
