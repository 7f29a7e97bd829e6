-- ===== src/TestClient/Isolation.antt =====
-- What one client sees does not depend on the other clients.
use kotatsu_backend.Prelude.{
  ℕ, ℕ_eq, ◌≡◌, ◌≢◌, ◌∙◌, String, String_eq, Bool, true, false, List, [], ◌∷◌, Option, nat_eq,
  ==_refl, arith, inl, inr, Bool-cases, if◌then◌else◌,
}
use kotatsu_backend.HashMap.{lookup}
use kotatsu_backend.TestClient.Messages.{ServerReliable, ServerDatagram}
use kotatsu_backend.TestClient.Stats.{StatsMap}
use kotatsu_backend.TestClient.Tasks.{
  Task, TaskEvent, task_step, Clients, clients_step, clients_run,
}
use kotatsu_backend.TestClient.OwnEntry.{task_step-same, task_step-other}

-- The events of one task.
unfoldable pub own_events : ℕ → List (ℕ × TaskEvent) → List TaskEvent
own_events i [] = []
own_events i ((j, event) ∷ events) =
    let rest = own_events i events in if nat_eq j i then event ∷ rest else rest

own_events_here :
    (i j : ℕ) (event : TaskEvent) (events : List (ℕ × TaskEvent))
    → nat_eq j i ≡ true
    → own_events i ((j, event) ∷ events) ≡ event ∷ own_events i events
unfolding own_events
own_events_here i j event events e = ground arith

own_events_away :
    (i j : ℕ) (event : TaskEvent) (events : List (ℕ × TaskEvent))
    → nat_eq j i ≡ false
    → own_events i ((j, event) ∷ events) ≡ own_events i events
unfolding own_events
own_events_away i j event events e = ground arith

module _ {F32 : Type 0} (read_reliable : List ℕ → Option ServerReliable)
    (read_datagram : List ℕ → Option (ServerDatagram F32)) where
  -- One task without any other.
  abbrev pub run_alone : Bool → String → List TaskEvent → Task → StatsMap → Task × StatsMap
  run_alone trigger id [] task stats = (task, stats)
  run_alone trigger id (event ∷ events) task stats =
      let (task', stats') = task_step read_reliable read_datagram trigger id event task stats in
      run_alone trigger id events task' stats'

  module _ (id_of : ℕ → String) (i : ℕ) (distinct : (j : ℕ) → j ≢ i → id_of j ≢ id_of i) where
    -- With player ids of their own, the clients do not disturb each other: in whatever order the
    -- events of all tasks come, a task ends up as it does with its own events alone, and so does its
    -- entry in the statistics, from any statistics with the same entry.
    pub clients_run_alone :
        (events : List (ℕ × TaskEvent)) (clients : Clients) (task : Task) (stats : StatsMap)
        → clients.tasks i ≡ task
        → lookup (id_of i) clients.stats ≡ lookup (id_of i) stats
        → let after = clients_run read_reliable read_datagram id_of events clients in
          let (task', stats') = run_alone (nat_eq i 0) (id_of i) (own_events i events) task stats in
          (after.tasks i ≡ task') × (lookup (id_of i) after.stats ≡ lookup (id_of i) stats')
    unfolding clients_run clients_step own_events
    clients_run_alone [] clients task stats t e = (t, e)
    clients_run_alone ((j, event) ∷ events) clients task stats t e =
        let step = λ (k : ℕ). task_step read_reliable read_datagram (nat_eq k 0) (id_of k) event in
        let next = clients_step read_reliable read_datagram id_of (j, event) clients in
        elim (Bool-cases (nat_eq j i)) [
          | inl here ↦
              let same : j ≡ i = ground arith in
              let (stepped, entry) =
                task_step-same read_reliable read_datagram (nat_eq i 0) (id_of i) event task
                  clients.stats stats e in
              let tasks : next.tasks i ≡ (step i task stats).0 = rw (same, ==_refl i, t) stepped in
              let entries : lookup (id_of i) next.stats ≡ lookup (id_of i) (step i task stats).1 =
                rw (same, t) entry in
              rw (own_events_here i j event events here) (
                clients_run_alone events next (step i task stats).0 (step i task stats).1 tasks
                  entries)
          | inr away ↦
              let differ : j ≢ i = λ q. absurd (ground arith) in
              let other =
                task_step-other read_reliable read_datagram (nat_eq j 0) (id_of j) (id_of i) event
                  (clients.tasks j) clients.stats (distinct j differ) in
              let kept : next.tasks i ≡ task = ground arith in
              rw (own_events_away i j event events away)
                (clients_run_alone events next task stats kept (other ∙ e))
        ]
