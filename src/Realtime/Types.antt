-- ===== src/Realtime/Types.antt =====
-- The data types of realtime-server/src/types.rs. An integer is a natural number, an `f32`, which
-- is only passed on, is any type, and a socket address, which is only compared, is a natural number.
-- A sender is the number of its channel.
use kotatsu_backend.Prelude.{ℕ, String, List, [], Option}
use kotatsu_backend.HashMap.{HashMap}

pub data ParamKind : Type 0 where
  gravity friction speed : ParamKind

pub data ParamDirection : Type 0 where
  increase decrease : ParamDirection

pub record PlayerParams : Type 0 where
  pub gravity : ℕ
  pub friction : ℕ
  pub speed : ℕ

-- `PlayerParams::default`
abbrev pub default_params : PlayerParams
default_params = record { gravity = 2; friction = 2; speed = 2 }

pub record PlayerMatchState : Type 0 where
  pub player_id : String
  pub display_name : String
  pub color_index : ℕ
  pub stage_order : List ℕ
  pub current_stage_index : ℕ

pub record ParamMutation : Type 0 where
  pub params : PlayerParams
  pub next_param_change_at_unix : ℕ

pub data ParamUpdateError : Type 0 where
  cooldown_active : ℕ → ParamUpdateError
  out_of_range : ParamUpdateError

pub record Ticket : Type 0 where
  pub match_id : String
  pub player_id : String
  pub display_name : String
  pub expires_at_unix : ℕ

abbrev pub SocketAddr : Type 0
SocketAddr = ℕ

abbrev pub ChannelId : Type 0
ChannelId = ℕ

pub data PlayerConnection : Type 0 where
  udp : SocketAddr → PlayerConnection

pub record PlayerHandle : Type 0 where
  pub display_name : String
  pub params : PlayerParams
  pub next_param_change_at_unix : ℕ
  pub color_index : Option ℕ
  pub stage_order : List ℕ
  pub current_stage_index : ℕ
  pub reliable_tx : ChannelId
  pub connection : Option PlayerConnection

pub record MatchRoom : Type 0 where
  pub players : HashMap String PlayerHandle
  pub started_at_unix : ℕ
  pub last_activity_unix : ℕ
  pub finished_player_ids : List String

-- `MatchRoom::new`, at the time that the clock shows.
unfoldable pub new_room : ℕ → MatchRoom
new_room now = record {
  players = [];
  started_at_unix = 0;
  last_activity_unix = now;
  finished_player_ids = [];
}

pub record CoreState : Type 0 where
  pub matches : HashMap String MatchRoom
  pub tickets : HashMap String Ticket

-- `CoreState::default`
abbrev pub default_core : CoreState
default_core = record { matches = []; tickets = [] }

pub data ClientReliable : Type 0 where
  join : String → ClientReliable
  param_change : ℕ → ParamKind → ParamDirection → ClientReliable

pub data ServerReliable : Type 0 where
  join_ok : String → String → PlayerParams → ℕ → ServerReliable
  match_started : String → ℕ → List PlayerMatchState → ℕ → ServerReliable
  param_applied : String → ℕ → PlayerParams → ℕ → ℕ → ServerReliable
  error : String → String → ServerReliable

pub data ClientDatagram (F32 : Type 0) : Type 0 where
  pos : ℕ → F32 → F32 → F32 → F32 → ClientDatagram F32
  stage_progress : ℕ → ClientDatagram F32

pub data ServerDatagram (F32 : Type 0) : Type 0 where
  pos : String → ℕ → F32 → F32 → F32 → F32 → ℕ → ServerDatagram F32
  stage_progress : String → ℕ → ℕ → ServerDatagram F32
