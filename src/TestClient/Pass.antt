-- ===== src/TestClient/Pass.antt =====
-- When test-client prints PASS.
use kotatsu_backend.Prelude.{
  ℕ, ◌≡◌, ◌↔◌, refl, ap, ◌∙◌, String, String_eq, Bool, List, [], ◌∷◌, Option, none, some, Result,
  ok, err, map_err, length, arith, All, inl, inr, Option-cases, Result-cases,
}
use kotatsu_backend.HashMap.{lookup}
use kotatsu_backend.Realtime.Types.{ClientReliable}
use kotatsu_backend.Realtime.Layout.{range}
use kotatsu_backend.RemoteRtt.CommandLine.{bind-ok}
use kotatsu_backend.RemoteRtt.Main.{create_url, join_url}
use kotatsu_backend.TestClient.Connect.{Network}
use kotatsu_backend.TestClient.Messages.{JoinMatchRes, ServerReliable, ServerDatagram}
use kotatsu_backend.TestClient.Settings.{Settings, settings}
use kotatsu_backend.TestClient.Stats.{ClientStats}
use kotatsu_backend.TestClient.Tasks.{Task, TaskEvent}
use kotatsu_backend.TestClient.Verdict.{GetMatchRes}
use kotatsu_backend.TestClient.Passed.{IsServed, IsThrottled, IsShown, verdict_ok}
use kotatsu_backend.TestClient.Main.{
  Http, MainError, match_url, names, join_all, or_failed, await_task, await_tasks, settled,
  play_match, main,
}

-- The task has joined, and its loops have ended without an error.
abbrev pub EndedWell : Task → Type 0
EndedWell Task.joining = ⊥
EndedWell (Task.not_joined e) = ⊥
EndedWell (Task.playing task) = task.ended ≡ some (ok tt)

await_task_ok : (task : Task) → (await_task task ≡ ok tt) ↔ EndedWell task
unfolding await_task
await_task_ok Task.joining = (λ h. absurd (ground arith), λ h. absurd h)
await_task_ok (Task.not_joined e) = (λ h. absurd (ground arith), λ h. absurd h)
await_task_ok (Task.playing task) = elim (Option-cases task.ended) [
  | inl e ↦ (λ h. absurd (ground arith), λ h. absurd (ground arith))
  | inr (end, e) ↦ elim (Result-cases end) [
    | inl (_, w) ↦ (λ h. ground arith, λ h. rw (h, await_task) refl)
    | inr (x, w) ↦ (λ h. absurd (ground arith), λ h. absurd (ground arith))
  ]
]

await_tasks_ok :
    (tasks : ℕ → Task) (is : List ℕ)
    → (await_tasks tasks is ≡ ok tt) ↔ All (λ i. EndedWell (tasks i)) is
unfolding await_tasks
await_tasks_ok tasks [] = (λ h. tt, λ h. refl)
await_tasks_ok tasks (i ∷ rest) =
    let one = await_task_ok (tasks i) in
    let others = await_tasks_ok tasks rest in
    elim (Result-cases (await_task (tasks i))) [
      | inl (_, e) ↦ (
        λ h. (one.0 e, others.0 (rw (e, await_tasks) at h)),
        λ (own, later). rw (e, await_tasks) (others.1 later),
      )
      | inr (x, e) ↦ (
        λ h. absurd (ground arith),
        λ (own, later). absurd (let fine = one.1 own in ground arith),
      )
    ]

or_failed_ok :
    {A : Type 0} (r : Option A) (e : MainError) (a : A) → or_failed r e ≡ ok a → r ≡ some a
or_failed_ok none e a h = absurd (ground arith)
or_failed_ok (some b) e a h = ground arith

map_err_ok : {A E F : Type 0} (f : E → F) (r : Result A E) (a : A) → map_err f r ≡ ok a → r ≡ ok a
map_err_ok f (ok b) a h = ground arith
map_err_ok f (err e) a h = absurd (ground arith)

module _ {F32 : Type 0} (read_reliable : List ℕ → Option ServerReliable)
    (read_datagram : List ℕ → Option (ServerDatagram F32))
    (write : ClientReliable → Option (List ℕ)) (http : Http) (net : Network) (accepts : ℕ → Bool)
    (events : List (ℕ × TaskEvent)) (var : String → Option String) where
  -- A match that passes, of the clients with these tickets.
  abbrev pub IsPassed : Settings → String → JoinMatchRes → List JoinMatchRes → Type 0
  IsPassed config match_id first others =
      let joins = first ∷ others in
      let after =
        settled read_reliable read_datagram write http net accepts events config.udp_override_url
          joins in
      (room : GetMatchRes) × (http.get_match (match_url config.api_base match_id) ≡ some room)
      × All (λ i. EndedWell (after.tasks i)) (range 0 (length joins))
      × (length after.stats ≡ 4)
      × All (λ e. IsServed e.1) after.stats
      × ((st : ClientStats) × (lookup first.player_id after.stats ≡ some st) × IsThrottled st)
      × IsShown first.player_id room

  play_match_ok :
      (config : Settings) (match_id : String) (first : JoinMatchRes) (others : List JoinMatchRes)
      → (play_match read_reliable read_datagram write http net accepts events config match_id
            (first ∷ others)
          ≡ ok tt)
        ↔ IsPassed config match_id first others
  unfolding play_match
  play_match_ok config match_id first others =
      let joins = first ∷ others in
      let after =
        settled read_reliable read_datagram write http net accepts events config.udp_override_url
          joins in
      let waits = await_tasks_ok after.tasks (range 0 (length joins)) in
      (
        λ h.
            let (room, g, h1) = bind-ok _ _ tt h in
            let (_, waited, h2) = bind-ok _ _ tt h1 in
            let facts =
              (verdict_ok after.stats room first.player_id).0
                (map_err_ok MainError.check_failed _ tt h2) in
            (room, or_failed_ok _ _ room g, waits.0 waited, facts.0, facts.1, facts.2, facts.3),
        λ (room, g, ended, count, served, trigger, shown).
            let passed =
              (verdict_ok after.stats room first.player_id).1 (count, served, trigger, shown) in
            rw (g, waits.1 ended, passed, play_match) refl,
      )

  some_first :
      (match_id : String) (joins : List JoinMatchRes)
      → play_match read_reliable read_datagram write http net accepts events
          (settings var)
          match_id
          joins
        ≡ ok tt
      → (first : JoinMatchRes) × (others : List JoinMatchRes) × (joins ≡ first ∷ others)
        × (play_match read_reliable read_datagram write http net accepts events
              (settings var)
              match_id
              (first ∷ others)
            ≡ ok tt)
  unfolding play_match
  some_first match_id [] h = absurd (ground arith)
  some_first match_id (first ∷ others) h = (first, others, refl, h)

  -- The tool ends well just where the API creates a match, gives four tickets and shows the match, all
  -- tasks join and end without an error, the statistics have four clients, each of them joined with
  -- the default levels, heard of a change and had datagrams of two players, the first client saw one
  -- change go through and one refused, and the match shows that change.
  pub main_ok :
      let config = settings var in
      (main read_reliable read_datagram write http net accepts events var ≡ ok tt) ↔ (
        (match_id : String) × (first : JoinMatchRes) × (others : List JoinMatchRes)
        × (http.post_create (create_url config.api_base) ≡ some match_id)
        × (join_all (http.post_join (join_url config.api_base match_id)) names
            ≡ some (first ∷ others))
        × IsPassed config match_id first others)
  unfolding main
  main_ok = (
    λ h.
        let (match_id, c, h1) = bind-ok _ _ tt h in
        let answers = join_all (http.post_join (join_url (settings var).api_base match_id)) names in
        let (joins, j, h2) =
          bind-ok (or_failed answers MainError.http_failed)
            (play_match read_reliable read_datagram write http net accepts events (settings var)
              match_id)
            tt h1 in
        let given = or_failed_ok answers MainError.http_failed joins j in
        let (first, others, same, h3) = some_first match_id joins h2 in
        (
          match_id,
          first,
          others,
          or_failed_ok _ _ match_id c,
          given ∙ ap some same,
          (play_match_ok (settings var) match_id first others).0 h3,
        ),
    λ (match_id, first, others, c, j, passes).
        rw (c, j, (play_match_ok (settings var) match_id first others).1 passes, main) refl,
  )
