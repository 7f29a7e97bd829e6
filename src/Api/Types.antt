-- ===== src/Api/Types.antt =====
-- The bodies of api-server/src/main.rs and the responses that carry them.
use kotatsu_backend.Prelude.{ℕ, String, Bool, List, Option}
use kotatsu_backend.Api.Documentation.{OperationDoc}

pub record RoomPlayerRes : Type 0 where
  pub player_id : String
  pub display_name : String
  pub gravity : ℕ
  pub friction : ℕ
  pub speed : ℕ
  pub next_param_change_at_unix : ℕ

pub record MatchSummaryRes : Type 0 where
  pub match_id : String
  pub max_players : ℕ
  pub player_count : ℕ
  pub started_at_unix : ℕ
  pub players : List RoomPlayerRes

pub record CreateMatchRes : Type 0 where
  pub match_id : String
  pub max_players : ℕ

pub record JoinMatchReq : Type 0 where
  pub display_name : Option String

pub record JoinMatchRes : Type 0 where
  pub match_id : String
  pub player_id : String
  pub token : String
  pub udp_url : String
  pub token_expires_at_unix : ℕ

pub record GetMatchRes : Type 0 where
  pub match_id : String
  pub max_players : ℕ
  pub started_at_unix : ℕ
  pub players : List RoomPlayerRes

pub record StartMatchRes : Type 0 where
  pub match_id : String
  pub started_at_unix : ℕ

pub record FinishMatchReq : Type 0 where
  pub player_id : String

pub record FinishMatchRes : Type 0 where
  pub match_id : String
  pub player_id : String
  pub rank : ℕ
  pub finished_player_count : ℕ
  pub total_players : ℕ

-- `ErrorRes` is the body `error`.
pub data Body : Type 0 where
  empty : Body
  health : Bool → Body
  error : String → Body
  openapi : List OperationDoc → Body
  list_matches : List MatchSummaryRes → Body
  create_match : CreateMatchRes → Body
  join_match : JoinMatchRes → Body
  get_match : GetMatchRes → Body
  start_match : StartMatchRes → Body
  finish_match : FinishMatchRes → Body

pub record Response : Type 0 where
  pub status : ℕ
  pub body : Body

-- `StatusCode::OK` and the others by their numbers.
abbrev pub status_ok : ℕ
status_ok = 200

abbrev pub status_no_content : ℕ
status_no_content = 204

abbrev pub status_not_found : ℕ
status_not_found = 404

abbrev pub status_conflict : ℕ
status_conflict = 409

abbrev pub status_bad_gateway : ℕ
status_bad_gateway = 502
