-- ===== src/Realtime/State.antt =====
-- The server's shared state: `AppState` of types.rs, `ClientSession` and `ClientRegistry` of
-- udp_connection.rs, the channels between them, and the packets that the socket has sent.
use kotatsu_backend.Prelude.{ℕ, ℕ_eq, String, List, [], ◌∷◌, ◌++◌, none, some, Locked}
use kotatsu_backend.HashMap.{HashMap, lookup, insert}
use kotatsu_backend.Realtime.Types.{CoreState, SocketAddr, ChannelId, ServerReliable}

pub record ClientSession : Type 0 where
  pub match_id : String
  pub player_id : String
  pub addr : SocketAddr
  pub tx : ChannelId
  pub rx : ChannelId

abbrev pub ClientRegistry : Type 0
ClientRegistry = HashMap SocketAddr ClientSession

-- The messages that wait in each channel whose receiver is alive, oldest first.
abbrev pub Channels : Type 0
Channels = HashMap ChannelId (List ServerReliable)

-- `tx.send(msg)`, which fails, and is ignored, where the receiver is gone. The code waits where 1024
-- messages wait already; a queue has no bound here.
unfoldable pub send : ChannelId → ServerReliable → Channels → Channels
unfolding lookup insert
send tx msg channels = elim (lookup tx channels) [
  | none ↦ channels
  | some queue ↦ insert tx (queue ++ msg ∷ []) channels
]

-- One message to each sender of a list.
unfoldable pub send_all : List ChannelId → ServerReliable → Channels → Channels
send_all [] msg channels = channels
send_all (tx ∷ txs) msg channels = send_all txs msg (send tx msg channels)

pub record Packet : Type 0 where
  pub dest : SocketAddr
  pub bytes : List ℕ

pub record Server : Type 0 where
  pub core : CoreState
  pub clients : ClientRegistry
  pub channels : Channels
  pub sent : List Packet

-- A section that holds the lock on `core`.
abbrev pub on_core : {E A : Type 0} → Locked CoreState E A → Locked Server E A
on_core m s = let (r, c) = m s.core in (r, record s { core = c })
