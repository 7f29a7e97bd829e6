-- ===== src/TestClient/Run.antt =====
-- `run_one_client` of test-client/src/main.rs: the wait for the answer to the join, the messages
-- that it sends, and its two tasks. The reader takes packets from the socket and passes messages
-- on; the client itself takes them from the channel. Their steps come in any order.
use kotatsu_backend.Prelude.{
  ℕ, String, String_eq, Bool, true, false, List, [], ◌∷◌, ◌++◌, map, Option, none, some,
  if◌then◌else◌, ◌==◌,
}
use kotatsu_backend.Realtime.Layout.{range}
use kotatsu_backend.Realtime.Types.{ParamKind, ParamDirection, ClientReliable, param_change}
use kotatsu_backend.TestClient.{parse_reliable, parse_datagram}
use kotatsu_backend.TestClient.Connect.{Received}
use kotatsu_backend.TestClient.Messages.{ServerReliable, ServerDatagram, ClientDatagram}
use kotatsu_backend.TestClient.Stats.{
  StatsMap, on_entry, record_join, record_datagram, handle_message,
}

-- What has become of the wait for the answer: nothing yet, as long as nothing that ends it comes in.
pub data JoinWait : Type 0 where
  waiting joined recv_failed : JoinWait
  unexpected_player_id : String → String → JoinWait
  join_failed : String → String → JoinWait

-- A state of the client: the statistics that all clients share, and its channel.
pub record Client : Type 0 where
  pub stats : StatsMap
  pub queue : List ServerReliable

-- A step of either task: the reader takes a packet, or the client a message.
pub data Event : Type 0 where
  read_packet : List ℕ → Event
  try_recv : Event

module _ (player_id : String) where
  -- One message in the wait for the answer.
  unfoldable pub join_message : ServerReliable → StatsMap → JoinWait × StatsMap
  join_message (ServerReliable.join_ok match_id got params now_ms) stats =
      if got == player_id
      then (JoinWait.joined, on_entry player_id (record_join params) stats)
      else (JoinWait.unexpected_player_id player_id got, stats)
  join_message (ServerReliable.error code message) stats =
      (JoinWait.join_failed code message, stats)
  join_message (ServerReliable.match_started match_id started_at now_ms) stats =
      (JoinWait.waiting, stats)
  join_message (ServerReliable.param_applied from_player_id seq params next now_ms) stats =
      (JoinWait.waiting, stats)

module _ (read_reliable : List ℕ → Option ServerReliable) (player_id : String) where
  unfoldable pub await_join : List Received → StatsMap → JoinWait × StatsMap
  await_join [] stats = (JoinWait.waiting, stats)
  await_join (Received.recv_failed ∷ rest) stats = (JoinWait.recv_failed, stats)
  await_join (Received.packet bytes ∷ rest) stats = elim (parse_reliable read_reliable bytes) [
    | none ↦ await_join rest stats
    | some msg ↦
        let (wait, stats') = join_message player_id msg stats in
        elim wait [ JoinWait.waiting ↦ await_join rest stats' | other ↦ (other, stats') ]
  ]

module _ {F32 : Type 0} (read_reliable : List ℕ → Option ServerReliable)
    (read_datagram : List ℕ → Option (ServerDatagram F32)) (player_id : String) where
  -- The reader's loop, for one packet.
  unfoldable pub reader_step : List ℕ → Client → Client
  reader_step bytes client = elim (parse_reliable read_reliable bytes) [
    | some msg ↦ record client { queue = client.queue ++ msg ∷ [] }
    | none ↦ elim (parse_datagram read_datagram bytes) [
      | none ↦ client
      | some datagram ↦ elim datagram [
        | ServerDatagram.pos from_player seq x y vx vy now_ms ↦ record client {
          stats = on_entry player_id (record_datagram from_player) client.stats;
        }
      ]
    ]
  ]

module _ (trigger_param_update : Bool) (player_id : String) where
  -- `try_recv` and the `match` on the message; an empty channel ends the inner loop.
  unfoldable pub take_message : Client → Client
  take_message client = elim client.queue [
    | [] ↦ client
    | msg ∷ rest ↦ record {
      stats = handle_message trigger_param_update player_id msg client.stats;
      queue = rest;
    }
  ]

  -- A loop `while let Ok(msg) = reliable_rx.try_recv()` that the reader does not interrupt.
  unfoldable pub handle_all : List ServerReliable → StatsMap → StatsMap
  handle_all [] stats = stats
  handle_all (msg ∷ rest) stats =
      handle_all rest (handle_message trigger_param_update player_id msg stats)

  unfoldable pub drain : Client → Client
  drain client = record { stats = handle_all client.queue client.stats; queue = [] }

module _ {F32 : Type 0} (read_reliable : List ℕ → Option ServerReliable)
    (read_datagram : List ℕ → Option (ServerDatagram F32)) (trigger_param_update : Bool)
    (player_id : String) where
  unfoldable pub step : Event → Client → Client
  step (Event.read_packet bytes) client =
      reader_step read_reliable read_datagram player_id bytes client
  step Event.try_recv client = take_message trigger_param_update player_id client

  unfoldable pub run : List Event → Client → Client
  run [] client = client
  run (event ∷ events) client = run events (step event client)

-- The two changes of the triggering client, and the positions of every client.
unfoldable pub trigger_messages : Bool → List ClientReliable
trigger_messages false = []
trigger_messages true =
    param_change 1 ParamKind.gravity ParamDirection.increase
    ∷ param_change 2 ParamKind.gravity ParamDirection.increase
    ∷ []

-- The products `seq as f32 * 0.1` and `seq as f32 * 0.2`, and the literals 0.1 and -0.1, are
-- arguments.
module _ {F32 : Type 0} (tenth fifth : ℕ → F32) (vx vy : F32) where
  unfoldable pub positions : ℕ → List (ClientDatagram F32)
  positions ticks =
      map (λ seq. ClientDatagram.pos seq (tenth seq) (fifth seq) vx vy) (range 1 ticks)
