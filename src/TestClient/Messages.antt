-- ===== src/TestClient/Messages.antt =====
-- The messages as test-client/src/main.rs declares them, and what it makes of the server's: fields
-- that it does not declare are skipped by the JSON library.
use kotatsu_backend.Prelude.{ℕ, String}
use kotatsu_backend.Realtime.Types.{PlayerParams}

-- The answer of the API to a join.
pub record JoinMatchRes : Type 0 where
  pub player_id : String
  pub token : String
  pub udp_url : String

pub data ServerReliable : Type 0 where
  join_ok : String → String → PlayerParams → ℕ → ServerReliable
  match_started : String → ℕ → ℕ → ServerReliable
  param_applied : String → ℕ → PlayerParams → ℕ → ℕ → ServerReliable
  error : String → String → ServerReliable

pub data ClientDatagram (F32 : Type 0) : Type 0 where
  pos : ℕ → F32 → F32 → F32 → F32 → ClientDatagram F32

pub data ServerDatagram (F32 : Type 0) : Type 0 where
  pos : String → ℕ → F32 → F32 → F32 → F32 → ℕ → ServerDatagram F32
