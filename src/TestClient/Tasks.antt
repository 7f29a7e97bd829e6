-- ===== src/TestClient/Tasks.antt =====
-- `run_one_client` of test-client/src/main.rs as a task among the tasks of all clients, which share
-- the statistics: how it starts, and what it and its reader make of each event.
use kotatsu_backend.Prelude.{
  ℕ, ℕ_eq, String, Bool, true, false, List, [], ◌∷◌, Option, none, some, Result, ok, err, nat_eq,
  if◌then◌else◌,
}
use kotatsu_backend.Realtime.Types.{ClientReliable, join}
use kotatsu_backend.Realtime.Broadcast.{pkt_reliable}
use kotatsu_backend.Realtime.Layout.{unwrap_or}
use kotatsu_backend.TestClient.{encode_packet, parse_reliable}
use kotatsu_backend.TestClient.Connect.{Network, ConnectError, connect_udp_socket}
use kotatsu_backend.TestClient.Messages.{JoinMatchRes, ServerReliable, ServerDatagram}
use kotatsu_backend.TestClient.Stats.{StatsMap}
use kotatsu_backend.TestClient.Run.{JoinWait, join_message, reader_step, take_message}

pub data ClientError : Type 0 where
  connect : ConnectError → ClientError
  json_failed send_failed recv_failed : ClientError
  unexpected_player_id join_failed : String → String → ClientError

-- After the join: whether the reader still reads, the channel, and how the client's own loops have
-- ended, if they have.
pub record Playing : Type 0 where
  pub reads : Bool
  pub queue : List ServerReliable
  pub ended : Option (Result (Unit {0}) ClientError)

pub data Task : Type 0 where
  joining : Task
  not_joined : ClientError → Task
  playing : Playing → Task

-- What a task meets: a packet, a failed receive, a turn of the loop over the channel, a failed send,
-- or the end of its last pause.
pub data TaskEvent : Type 0 where
  packet : List ℕ → TaskEvent
  recv_failed try_recv send_failed finish : TaskEvent

-- The start up to the wait for the answer. The Boolean is whether the socket accepts the join.
unfoldable pub start_task :
    Network → (ClientReliable → Option (List ℕ)) → Bool → Option String → JoinMatchRes → Task
start_task net write accepted udp_override_url ticket =
    elim (connect_udp_socket net (unwrap_or udp_override_url ticket.udp_url)) [
      | err e ↦ Task.not_joined (ClientError.connect e)
      | ok addr ↦ elim (encode_packet pkt_reliable (write (join ticket.token))) [
        | none ↦ Task.not_joined ClientError.json_failed
        | some bytes ↦ elim accepted [
          | false ↦ Task.not_joined ClientError.send_failed
          | true ↦ Task.joining
        ]
      ]
    ]

-- The wait has had one message.
abbrev pub after_wait : JoinWait → Task
after_wait JoinWait.waiting = Task.joining
after_wait JoinWait.joined = Task.playing (record { reads = true; queue = []; ended = none })
after_wait JoinWait.recv_failed = Task.not_joined ClientError.recv_failed
after_wait (JoinWait.unexpected_player_id expected got) =
    Task.not_joined (ClientError.unexpected_player_id expected got)
after_wait (JoinWait.join_failed code message) =
    Task.not_joined (ClientError.join_failed code message)

module _ {F32 : Type 0} (read_reliable : List ℕ → Option ServerReliable)
    (read_datagram : List ℕ → Option (ServerDatagram F32)) (trigger_param_update : Bool)
    (player_id : String) where
  -- A packet at the reader. The channel has no receiver any more where the client's loops have ended.
  unfoldable pub read_one : List ℕ → Playing → StatsMap → Playing × StatsMap
  read_one bytes task stats = elim task.ended [
    | none ↦
        let client =
          reader_step read_reliable read_datagram player_id bytes
            (record { stats = stats; queue = task.queue }) in
        (record task { queue = client.queue }, client.stats)
    | some end ↦ elim (parse_reliable read_reliable bytes) [
      | some msg ↦ (record task { reads = false }, stats)
      | none ↦
          let client =
            reader_step read_reliable read_datagram player_id bytes
              (record { stats = stats; queue = task.queue }) in
          (task, client.stats)
    ]
  ]

  unfoldable pub play_step : TaskEvent → Playing → StatsMap → Playing × StatsMap
  play_step (TaskEvent.packet bytes) task stats =
      if task.reads then read_one bytes task stats else (task, stats)
  play_step TaskEvent.recv_failed task stats = (record task { reads = false }, stats)
  play_step TaskEvent.try_recv task stats = elim task.ended [
    | some end ↦ (task, stats)
    | none ↦
        let client =
          take_message trigger_param_update player_id
            (record { stats = stats; queue = task.queue }) in
        (record task { queue = client.queue }, client.stats)
  ]
  play_step TaskEvent.send_failed task stats = elim task.ended [
    | some end ↦ (task, stats)
    | none ↦ (record task { ended = some (err ClientError.send_failed) }, stats)
  ]
  play_step TaskEvent.finish task stats = elim task.ended [
    | some end ↦ (task, stats)
    | none ↦ (record task { reads = false; ended = some (ok tt) }, stats)
  ]

  unfoldable pub task_step : TaskEvent → Task → StatsMap → Task × StatsMap
  task_step event (Task.not_joined e) stats = (Task.not_joined e, stats)
  task_step (TaskEvent.packet bytes) Task.joining stats =
      elim (parse_reliable read_reliable bytes) [
        | none ↦ (Task.joining, stats)
        | some msg ↦
            let (wait, stats') = join_message player_id msg stats in (after_wait wait, stats')
      ]
  task_step TaskEvent.recv_failed Task.joining stats =
      (Task.not_joined ClientError.recv_failed, stats)
  task_step TaskEvent.try_recv Task.joining stats = (Task.joining, stats)
  task_step TaskEvent.send_failed Task.joining stats = (Task.joining, stats)
  task_step TaskEvent.finish Task.joining stats = (Task.joining, stats)
  task_step event (Task.playing task) stats =
      let (task', stats') = play_step event task stats in (Task.playing task', stats')

-- All tasks by their indices, and the statistics they share.
pub record Clients : Type 0 where
  pub stats : StatsMap
  pub tasks : ℕ → Task

abbrev pub put_task : ℕ → Task → (ℕ → Task) → ℕ → Task
put_task i task tasks j = if nat_eq j i then task else tasks j

module _ {F32 : Type 0} (read_reliable : List ℕ → Option ServerReliable)
    (read_datagram : List ℕ → Option (ServerDatagram F32)) (id_of : ℕ → String) where
  -- An event at one of the tasks. The first client is the one that changes a parameter.
  unfoldable pub clients_step : ℕ × TaskEvent → Clients → Clients
  clients_step (i, event) clients =
      let (task, stats) =
        task_step read_reliable read_datagram (nat_eq i 0) (id_of i) event (clients.tasks i)
          clients.stats in
      record { stats = stats; tasks = put_task i task clients.tasks }

  unfoldable pub clients_run : List (ℕ × TaskEvent) → Clients → Clients
  clients_run [] clients = clients
  clients_run (event ∷ events) clients = clients_run events (clients_step event clients)
