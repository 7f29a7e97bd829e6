-- ===== src/TestClient/OwnEntry.antt =====
-- A step of a client's task reads and writes only the client's own entry.
use kotatsu_backend.Prelude.{
  ℕ, ℕ_eq, ◌≡◌, ◌≢◌, refl, sym, ap, ◌∙◌, String, String_eq, Bool, true, false, List, [], ◌∷◌, ◌++◌,
  Option, none, some, Result, ok, err, inl, inr, Option-cases, Bool-cases, ◌==◌,
}
use kotatsu_backend.HashMap.{lookup, lookup-insert_self}
use kotatsu_backend.Realtime.Layout.{unwrap_or}
use kotatsu_backend.TestClient.{parse_reliable, parse_datagram}
use kotatsu_backend.TestClient.Messages.{ServerReliable, ServerDatagram}
use kotatsu_backend.TestClient.Stats.{
  ClientStats, StatsMap, default_stats, on_entry, on_entry_if, record_join, record_datagram,
  handle_message, message_change,
}
use kotatsu_backend.TestClient.Run.{JoinWait, join_message, reader_step, take_message}
use kotatsu_backend.TestClient.Tasks.{
  ClientError, Playing, Task, TaskEvent, after_wait, read_one, play_step, task_step,
}
use kotatsu_backend.TestClient.Counts.{entry_of, lookup-on_entry_ne}

lookup-on_entry_same :
    (id : String) (f : ClientStats → ClientStats) (m n : StatsMap)
    → lookup id m ≡ lookup id n
    → lookup id (on_entry id f m) ≡ lookup id (on_entry id f n)
unfolding on_entry
lookup-on_entry_same id f m n h =
    lookup-insert_self id (f (entry_of id m)) m
    ∙ ap (λ o. some (f (unwrap_or o default_stats))) h
    ∙ sym (lookup-insert_self id (f (entry_of id n)) n)

on_entry_if-same :
    (id : String) (change : Option (ClientStats → ClientStats)) (m n : StatsMap)
    → lookup id m ≡ lookup id n
    → lookup id (on_entry_if change id m) ≡ lookup id (on_entry_if change id n)
on_entry_if-same id none m n h = h
on_entry_if-same id (some f) m n h = lookup-on_entry_same id f m n h

on_entry_if-other :
    (id other : String) (change : Option (ClientStats → ClientStats)) (m : StatsMap)
    → id ≢ other
    → lookup other (on_entry_if change id m) ≡ lookup other m
on_entry_if-other id other none m n = refl
on_entry_if-other id other (some f) m n = lookup-on_entry_ne id other f m n

module _ {F32 : Type 0} (read_reliable : List ℕ → Option ServerReliable)
    (read_datagram : List ℕ → Option (ServerDatagram F32)) (trigger : Bool) (id : String) where
  -- A step changes the state by what the event is and how the task stands, whatever is in the
  -- statistics, and in these at most the client's own entry.
  IsOwn : {A : Type 0} → (StatsMap → A × StatsMap) → Type 0
  IsOwn {A} f =
      (a : A) × (change : Option (ClientStats → ClientStats)) × ((m : StatsMap)
        → f m ≡ (a, on_entry_if change id m))

  join_message-IsOwn : (msg : ServerReliable) → IsOwn (join_message id msg)
  unfolding join_message IsOwn
  join_message-IsOwn (ServerReliable.join_ok match_id got params now_ms) =
      elim (Bool-cases (got == id)) [
        | inl e ↦ (JoinWait.joined, some (record_join params), λ m. rw (e, join_message) refl)
        | inr e ↦ (JoinWait.unexpected_player_id id got, none, λ m. rw (e, join_message) refl)
      ]
  join_message-IsOwn (ServerReliable.error code message) =
      (JoinWait.join_failed code message, none, λ m. refl)
  join_message-IsOwn (ServerReliable.match_started match_id started_at now_ms) =
      (JoinWait.waiting, none, λ m. refl)
  join_message-IsOwn (ServerReliable.param_applied from_player_id seq params next now_ms) =
      (JoinWait.waiting, none, λ m. refl)

  reader_step-IsOwn :
      (bytes : List ℕ) (queue : List ServerReliable)
      → (queue' : List ServerReliable) × (change : Option (ClientStats → ClientStats))
        × ((m : StatsMap)
            → reader_step read_reliable read_datagram id bytes (record { stats = m; queue = queue })
              ≡ record { stats = on_entry_if change id m; queue = queue' })
  unfolding reader_step
  reader_step-IsOwn bytes queue = elim (Option-cases (parse_reliable read_reliable bytes)) [
    | inr (msg, e) ↦ (queue ++ msg ∷ [], none, λ m. rw (e, reader_step) refl)
    | inl e ↦ elim (Option-cases (parse_datagram read_datagram bytes)) [
      | inl d ↦ (queue, none, λ m. rw (e, d, reader_step) refl)
      | inr (ServerDatagram.pos from_player seq x y vx vy now_ms, d) ↦
          (queue, some (record_datagram from_player), λ m. rw (e, d, reader_step) refl)
    ]
  ]

  take_message-IsOwn :
      (queue : List ServerReliable)
      → (queue' : List ServerReliable) × (change : Option (ClientStats → ClientStats))
        × ((m : StatsMap)
            → take_message trigger id (record { stats = m; queue = queue })
              ≡ record { stats = on_entry_if change id m; queue = queue' })
  unfolding take_message handle_message
  take_message-IsOwn [] = ([], none, λ m. refl)
  take_message-IsOwn (msg ∷ rest) = (rest, message_change trigger id msg, λ m. refl)

  playing_with : Bool → List ServerReliable → Option (Result (Unit {0}) ClientError) → Playing
  playing_with reads queue ended = record { reads = reads; queue = queue; ended = ended }

  read_one-IsOwn :
      (bytes : List ℕ) (reads : Bool) (queue : List ServerReliable)
      (ended : Option (Result (Unit {0}) ClientError))
      → IsOwn
          (read_one read_reliable read_datagram trigger id bytes (playing_with reads queue ended))
  unfolding IsOwn read_one playing_with
  read_one-IsOwn bytes reads queue none =
      let (queue', change, same) = reader_step-IsOwn bytes queue in
      (playing_with reads queue' none, change, λ m. rw (same m) refl)
  read_one-IsOwn bytes reads queue (some end) =
      elim (Option-cases (parse_reliable read_reliable bytes)) [
        | inr (msg, p) ↦ (playing_with false queue (some end), none, λ m. rw (p, read_one) refl)
        | inl p ↦
            let (queue', change, same) = reader_step-IsOwn bytes queue in
            (playing_with reads queue (some end), change, λ m. rw (p, same m, read_one) refl)
      ]

  play_step-IsOwn :
      (event : TaskEvent) (reads : Bool) (queue : List ServerReliable)
      (ended : Option (Result (Unit {0}) ClientError))
      → IsOwn
          (play_step read_reliable read_datagram trigger id event (playing_with reads queue ended))
  unfolding play_step IsOwn playing_with
  play_step-IsOwn (TaskEvent.packet bytes) true queue ended = read_one-IsOwn bytes true queue ended
  play_step-IsOwn (TaskEvent.packet bytes) false queue ended =
      (playing_with false queue ended, none, λ m. refl)
  play_step-IsOwn TaskEvent.recv_failed reads queue ended =
      (playing_with false queue ended, none, λ m. refl)
  play_step-IsOwn TaskEvent.try_recv reads queue none =
      let (queue', change, same) = take_message-IsOwn queue in
      (playing_with reads queue' none, change, λ m. rw (same m) refl)
  play_step-IsOwn TaskEvent.send_failed reads queue none =
      (playing_with reads queue (some (err ClientError.send_failed)), none, λ m. refl)
  play_step-IsOwn TaskEvent.finish reads queue none =
      (playing_with false queue (some (ok tt)), none, λ m. refl)
  play_step-IsOwn TaskEvent.try_recv reads queue (some end) =
      (playing_with reads queue (some end), none, λ m. refl)
  play_step-IsOwn TaskEvent.send_failed reads queue (some end) =
      (playing_with reads queue (some end), none, λ m. refl)
  play_step-IsOwn TaskEvent.finish reads queue (some end) =
      (playing_with reads queue (some end), none, λ m. refl)

  task_step-IsOwn :
      (event : TaskEvent) (task : Task)
      → IsOwn (task_step read_reliable read_datagram trigger id event task)
  unfolding task_step IsOwn playing_with
  task_step-IsOwn event (Task.not_joined e) = (Task.not_joined e, none, λ m. refl)
  task_step-IsOwn event (Task.playing task) =
      let (task', change, same) = play_step-IsOwn event task.reads task.queue task.ended in
      (Task.playing task', change, λ m. rw (same m, task_step) refl)
  task_step-IsOwn (TaskEvent.packet bytes) Task.joining =
      elim (Option-cases (parse_reliable read_reliable bytes)) [
        | inl e ↦ (Task.joining, none, λ m. rw (e, task_step) refl)
        | inr (msg, e) ↦
            let (wait, change, same) = join_message-IsOwn msg in
            (after_wait wait, change, λ m. rw (e, same m, task_step) refl)
      ]
  task_step-IsOwn TaskEvent.recv_failed Task.joining =
      (Task.not_joined ClientError.recv_failed, none, λ m. refl)
  task_step-IsOwn TaskEvent.try_recv Task.joining = (Task.joining, none, λ m. refl)
  task_step-IsOwn TaskEvent.send_failed Task.joining = (Task.joining, none, λ m. refl)
  task_step-IsOwn TaskEvent.finish Task.joining = (Task.joining, none, λ m. refl)

  -- A step reads and writes only the client's own entry.
  pub task_step-same :
      (event : TaskEvent) (task : Task) (m n : StatsMap)
      → lookup id m ≡ lookup id n
      → let step = task_step read_reliable read_datagram trigger id event task in
        ((step m).0 ≡ (step n).0) × (lookup id (step m).1 ≡ lookup id (step n).1)
  unfolding IsOwn
  task_step-same event task m n h =
      let (task', change, same) = task_step-IsOwn event task in
      rw (same m, same n) (refl, on_entry_if-same id change m n h)

  pub task_step-other :
      (other : String) (event : TaskEvent) (task : Task) (m : StatsMap)
      → id ≢ other
      → lookup other (task_step read_reliable read_datagram trigger id event task m).1
        ≡ lookup other m
  unfolding IsOwn
  task_step-other other event task m n =
      let (task', change, same) = task_step-IsOwn event task in
      rw (same m) (on_entry_if-other id other change m n)
