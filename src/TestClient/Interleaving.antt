-- ===== src/TestClient/Interleaving.antt =====
-- The two tasks of a test client: the order in which their steps come makes no difference.
use kotatsu_backend.Prelude.{
  ℕ, ◌≡◌, refl, sym, ap, ◌∙◌, String, String_eq, Bool, List, [], ◌∷◌, ◌++◌, Option, none, some,
  arith, inl, inr, Option-cases, Bool-cases, ==_refl,
}
use kotatsu_backend.HashMap.{lookup, insert, lookup-insert_self}
use kotatsu_backend.Realtime.Layout.{unwrap_or}
use kotatsu_backend.TestClient.{parse_reliable, parse_datagram}
use kotatsu_backend.TestClient.Messages.{ServerReliable, ServerDatagram}
use kotatsu_backend.TestClient.Stats.{
  ClientStats, StatsMap, default_stats, on_entry, record_datagram, record_applied,
  record_cooldown_error, message_change, handle_message, is_cooldown_refusal,
}
use kotatsu_backend.TestClient.Run.{
  Client, Event, reader_step, take_message, step, run, handle_all, drain,
}

insert-insert :
    (k : String) (v w : ClientStats) (m : StatsMap) → insert k v (insert k w m) ≡ insert k v m
unfolding insert
insert-insert k v w [] = ground (arith, ==_refl k)
insert-insert k v w ((j, u) ∷ m) = ground (arith, ==_refl k, insert-insert k v w m)

on_entry-on_entry :
    (id : String) (f g : ClientStats → ClientStats) (m : StatsMap)
    → on_entry id f (on_entry id g m) ≡ on_entry id (λ st. f (g st)) m
unfolding on_entry
on_entry-on_entry id f g m =
    let entry = g (unwrap_or (lookup id m) default_stats) in
    rw (lookup-insert_self id entry m) (insert-insert id (f entry) entry m)

-- Two changes that commute on an entry commute on the map.
on_entry_comm :
    (id : String) (f g : ClientStats → ClientStats) (m : StatsMap)
    → ((st : ClientStats) → f (g st) ≡ g (f st))
    → on_entry id f (on_entry id g m) ≡ on_entry id g (on_entry id f m)
unfolding on_entry
on_entry_comm id f g m h =
    on_entry-on_entry id f g m
    ∙ ap (λ entry. insert id entry m) (h (unwrap_or (lookup id m) default_stats))
    ∙ sym (on_entry-on_entry id g f m)

module _ (trigger : Bool) (id : String) where
  handle_message-datagram :
      (msg : ServerReliable) (from : String) (m : StatsMap)
      → handle_message trigger id msg (on_entry id (record_datagram from) m)
        ≡ on_entry id (record_datagram from) (handle_message trigger id msg m)
  unfolding handle_message message_change record_datagram record_applied record_cooldown_error
  handle_message-datagram (ServerReliable.param_applied by seq params next now_ms) from m =
      on_entry_comm id (record_applied id by params next) (record_datagram from) m
        (λ st. ground arith)
  handle_message-datagram (ServerReliable.error code message) from m =
      elim (Bool-cases (is_cooldown_refusal trigger code message)) [
        | inl e ↦
            rw e (on_entry_comm id record_cooldown_error (record_datagram from) m (λ st. refl))
        | inr e ↦ rw e refl
      ]
  handle_message-datagram (ServerReliable.join_ok match_id got params now_ms) from m = refl
  handle_message-datagram (ServerReliable.match_started match_id started_at now_ms) from m = refl

  handle_all-datagram :
      (queue : List ServerReliable) (from : String) (m : StatsMap)
      → handle_all trigger id queue (on_entry id (record_datagram from) m)
        ≡ on_entry id (record_datagram from) (handle_all trigger id queue m)
  unfolding handle_all
  handle_all-datagram [] from m = refl
  handle_all-datagram (msg ∷ rest) from m =
      rw (handle_message-datagram msg from m)
        (handle_all-datagram rest from (handle_message trigger id msg m))

  handle_all-append :
      (queue : List ServerReliable) (msg : ServerReliable) (m : StatsMap)
      → handle_all trigger id (queue ++ msg ∷ []) m
        ≡ handle_message trigger id msg (handle_all trigger id queue m)
  unfolding handle_all
  handle_all-append [] msg m = refl
  handle_all-append (first ∷ rest) msg m =
      handle_all-append rest msg (handle_message trigger id first m)

-- A packet is a message, a datagram of a player, or neither.
pub data Reading : Type 0 where
  a_message : ServerReliable → Reading
  a_datagram : String → Reading
  nothing : Reading

-- Whatever is read is handled at once, in one task.
module _ (trigger : Bool) (id : String) where
  abbrev pub observe : Reading → StatsMap → StatsMap
  observe (Reading.a_message msg) m = handle_message trigger id msg m
  observe (Reading.a_datagram from) m = on_entry id (record_datagram from) m
  observe Reading.nothing m = m

  abbrev pub observe_all : List Reading → StatsMap → StatsMap
  observe_all [] m = m
  observe_all (r ∷ rest) m = observe_all rest (observe r m)

module _ {F32 : Type 0} (read_reliable : List ℕ → Option ServerReliable)
    (read_datagram : List ℕ → Option (ServerDatagram F32)) where
  -- How the reader reads a packet.
  abbrev pub reading : List ℕ → Reading
  reading bytes = elim (parse_reliable read_reliable bytes) [
    | some msg ↦ Reading.a_message msg
    | none ↦ elim (parse_datagram read_datagram bytes) [
      | none ↦ Reading.nothing
      | some datagram ↦ elim datagram [
        | ServerDatagram.pos from seq x y vx vy now_ms ↦ Reading.a_datagram from
      ]
    ]
  ]

  -- What the reader reads, in order.
  abbrev pub readings : List Event → List Reading
  readings [] = []
  readings (Event.read_packet bytes ∷ events) = reading bytes ∷ readings events
  readings (Event.try_recv ∷ events) = readings events

module _ {F32 : Type 0} (read_reliable : List ℕ → Option ServerReliable)
    (read_datagram : List ℕ → Option (ServerDatagram F32)) (trigger : Bool) (id : String) where
  -- The statistics once the waiting messages have been handled.
  abbrev settle : Client → StatsMap
  settle client = handle_all trigger id client.queue client.stats

  settle-reader_step :
      (bytes : List ℕ) (client : Client)
      → settle (reader_step read_reliable read_datagram id bytes client)
        ≡ observe trigger id (reading read_reliable read_datagram bytes) (settle client)
  unfolding reader_step
  settle-reader_step bytes client = elim (Option-cases (parse_reliable read_reliable bytes)) [
    | inr (msg, e) ↦
        rw (e, reader_step, reading) (handle_all-append trigger id client.queue msg client.stats)
    | inl e ↦ elim (Option-cases (parse_datagram read_datagram bytes)) [
      | inl f ↦ rw (e, f, reader_step, reading) refl
      | inr (datagram, f) ↦ of_datagram datagram e f
    ]
  ]
    where
      of_datagram :
          (datagram : ServerDatagram F32)
          → parse_reliable read_reliable bytes ≡ none
          → parse_datagram read_datagram bytes ≡ some datagram
          → settle (reader_step read_reliable read_datagram id bytes client)
            ≡ observe trigger id (reading read_reliable read_datagram bytes) (settle client)
      of_datagram (ServerDatagram.pos from seq x y vx vy now_ms) e f =
          rw (e, f, reader_step, observe)
            (handle_all-datagram trigger id client.queue from client.stats)

  settle-take_message : (client : Client) → settle (take_message trigger id client) ≡ settle client
  unfolding take_message handle_all
  settle-take_message client = by_queue client.queue refl
    where
      by_queue :
          (queue : List ServerReliable)
          → client.queue ≡ queue
          → settle (take_message trigger id client) ≡ settle client
      by_queue [] e = rw (e, take_message) (rw e refl)
      by_queue (msg ∷ rest) e = rw (e, take_message) refl

  settle-run :
      (events : List Event) (client : Client)
      → settle (run read_reliable read_datagram trigger id events client)
        ≡ observe_all trigger id (readings read_reliable read_datagram events) (settle client)
  unfolding run step
  settle-run [] client = refl
  settle-run (Event.read_packet bytes ∷ events) client =
      settle-run events (reader_step read_reliable read_datagram id bytes client)
      ∙ ap (observe_all trigger id (readings read_reliable read_datagram events))
          (settle-reader_step bytes client)
  settle-run (Event.try_recv ∷ events) client =
      settle-run events (take_message trigger id client)
      ∙ ap (observe_all trigger id (readings read_reliable read_datagram events))
          (settle-take_message client)

  -- However the steps of the reader and of the client itself are interleaved, once the channel has
  -- been emptied the statistics are those of one task that handles every packet at once, in the
  -- order in which they come.
  pub run_interleaved :
      (events : List Event) (stats : StatsMap)
      → drain trigger id
          (run read_reliable read_datagram trigger id events (record { stats = stats; queue = [] }))
        ≡ record {
          stats = observe_all trigger id (readings read_reliable read_datagram events) stats;
          queue = [];
        }
  unfolding drain handle_all
  run_interleaved events stats =
      ap (λ (m : StatsMap). record { stats = m; queue = [] })
        (settle-run events (record { stats = stats; queue = [] }))
