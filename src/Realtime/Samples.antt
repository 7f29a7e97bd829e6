-- ===== src/Realtime/Samples.antt =====
-- Small states for the tests: a lobby with two players, a started match with one, and a ticket.
use kotatsu_backend.Prelude.{
  ℕ, ℕ_eq, zero, suc, String, String_eq, true, List, [], ◌∷◌, Option, none, some,
}
use kotatsu_backend.Realtime.Types.{
  PlayerHandle, MatchRoom, CoreState, Ticket, SocketAddr, ChannelId, ClientReliable, ClientDatagram,
  ParamKind, ParamDirection, default_params, join, param_change, udp,
}
use kotatsu_backend.Realtime.State.{ClientSession, Server}
use kotatsu_backend.Realtime.Layout.{Shuffle}
use kotatsu_backend.Realtime.Udp.Socket.{Codec}
use kotatsu_backend.Realtime.Udp.Join.{JoinEnv}
use kotatsu_backend.Realtime.Udp.Handlers.{Env}

abbrev pub player : String → SocketAddr → ChannelId → PlayerHandle
player name addr tx = record {
  display_name = name;
  params = default_params;
  next_param_change_at_unix = 0;
  color_index = none;
  stage_order = [];
  current_stage_index = 0;
  reliable_tx = tx;
  connection = some (udp addr);
}

abbrev pub alice : PlayerHandle
alice = player "alice" 7001 1

abbrev pub bob : PlayerHandle
bob = player "bob" 7002 2

abbrev pub lobby : MatchRoom
lobby = record {
  players = ("p_a", alice) ∷ ("p_b", bob) ∷ [];
  started_at_unix = 0;
  last_activity_unix = 1000;
  finished_player_ids = [];
}

abbrev pub running : MatchRoom
running = record {
  players = ("p_c", player "carol" 7003 3) ∷ [];
  started_at_unix = 900;
  last_activity_unix = 950;
  finished_player_ids = [];
}

abbrev pub ticket : Ticket
ticket = record {
  match_id = "m_1";
  player_id = "p_d";
  display_name = "dave";
  expires_at_unix = 2000;
}

abbrev pub core : CoreState
core = record { matches = ("m_1", lobby) ∷ ("m_2", running) ∷ []; tickets = ("t_1", ticket) ∷ [] }

abbrev pub alice_session : ClientSession
alice_session = record { match_id = "m_1"; player_id = "p_a"; addr = 7001; tx = 1; rx = 1 }

abbrev pub bob_session : ClientSession
bob_session = record { match_id = "m_1"; player_id = "p_b"; addr = 7002; tx = 2; rx = 2 }

abbrev pub server : Server
server = record {
  core = core;
  clients = (7001, alice_session) ∷ (7002, bob_session) ∷ [];
  channels = (1, []) ∷ (2, []) ∷ [];
  sent = [];
}

-- A generator that leaves every list as it is.
abbrev pub no_shuffle : Shuffle
no_shuffle i xs = xs

-- A text format with one message for each list of bytes.
abbrev read_reliable : List ℕ → Option ClientReliable
read_reliable [] = none
read_reliable (zero ∷ _) = some (join "t_1")
read_reliable (suc _ ∷ _) = some (param_change 1 ParamKind.speed ParamDirection.increase)

abbrev read_datagram : List ℕ → Option (ClientDatagram ℕ)
read_datagram [] = none
read_datagram (n ∷ _) = some (ClientDatagram.pos n 0 0 0 0)

abbrev pub codec : Codec ℕ
codec = record {
  read_reliable = read_reliable;
  read_datagram = read_datagram;
  write_reliable = λ _. some (123 ∷ []);
  write_datagram = λ _. some (124 ∷ []);
}

abbrev pub join_env : JoinEnv
join_env = record {
  consumed_at = 1500;
  channel = 4;
  registered_at = 1500;
  now_ms = 1500000;
  accepted = true;
  removed_at = 1500;
}

abbrev pub env : Env
env = record { now = 1500; later = 1500; now_ms = 1500000; join = join_env }
