-- ===== src/Realtime/Status.antt =====
-- `tonic::Status` as the control plane uses it, and the messages of proto/controlplane.proto.
use kotatsu_backend.Prelude.{ℕ, String, List}

-- `other` stands for every status that the control plane does not build itself, such as a failed
-- connection.
pub data Code : Type 0 where
  not_found failed_precondition internal other : Code

pub record Status : Type 0 where
  pub code : Code
  pub message : String

pub record RoomPlayer : Type 0 where
  pub player_id : String
  pub display_name : String
  pub gravity : ℕ
  pub friction : ℕ
  pub speed : ℕ
  pub next_param_change_at_unix : ℕ

pub record RoomSummary : Type 0 where
  pub match_id : String
  pub max_players : ℕ
  pub players : List RoomPlayer
  pub started_at_unix : ℕ

pub record CreateRoomResponse : Type 0 where
  pub match_id : String
  pub max_players : ℕ

pub record IssueJoinTicketResponse : Type 0 where
  pub match_id : String
  pub player_id : String
  pub token : String
  pub token_expires_at_unix : ℕ
  pub udp_url : String

pub record StartRoomResponse : Type 0 where
  pub match_id : String
  pub started_at_unix : ℕ

pub record FinishRoomResponse : Type 0 where
  pub match_id : String
  pub player_id : String
  pub rank : ℕ
  pub finished_player_count : ℕ
  pub total_players : ℕ
