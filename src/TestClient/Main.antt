-- ===== src/TestClient/Main.antt =====
-- `main` of test-client/src/main.rs. The HTTP client and the sockets are interfaces, and what
-- becomes of the four tasks is a list of their events. What is printed is left out.
use Prim.Native.String.{◌++◌ as str_append}
use kotatsu_backend.Prelude.{
  ℕ, ◌+◌, String, Bool, List, [], ◌∷◌, Option, none, some, Result, ok, err, map_err, map, length,
  get_elem?,
}
use kotatsu_backend.Realtime.Types.{ClientReliable}
use kotatsu_backend.Realtime.Error.{display_u64}
use kotatsu_backend.Realtime.Layout.{range}
use kotatsu_backend.RemoteRtt.Config.{concat}
use kotatsu_backend.RemoteRtt.CommandLine.{◌>>=◌}
use kotatsu_backend.RemoteRtt.Main.{create_url, join_url}
use kotatsu_backend.TestClient.Connect.{Network}
use kotatsu_backend.TestClient.Messages.{JoinMatchRes, ServerReliable, ServerDatagram}
use kotatsu_backend.TestClient.Settings.{Settings, settings}
use kotatsu_backend.TestClient.Tasks.{
  ClientError, Task, TaskEvent, Clients, start_task, clients_run,
}
use kotatsu_backend.TestClient.Verdict.{GetMatchRes, Failure, verdict}

-- What the API answers to a creation, to a join under a name, and to a request for a match, each at
-- a URL. `none` is any failure on the way.
pub record Http : Type 0 where
  pub post_create : String → Option String
  pub post_join : String → String → Option JoinMatchRes
  pub get_match : String → Option GetMatchRes

pub data MainError : Type 0 where
  http_failed join_list_empty still_running : MainError
  client_failed : ClientError → MainError
  check_failed : Failure → MainError

abbrev pub match_url : String → String → String
match_url api match_id = concat (api ∷ "/v1/matches/" ∷ match_id ∷ [])

-- `format!("p{}", i + 1)` for the four clients.
unfoldable pub names : List String
names = map (λ i. str_append "p" (display_u64 (i + 1))) (range 0 4)

abbrev pub or_failed : {A : Type 0} → Option A → MainError → Result A MainError
or_failed none e = err e
or_failed (some a) e = ok a

-- The loop of the joins: the first failure ends it.
unfoldable pub join_all : (String → Option JoinMatchRes) → List String → Option (List JoinMatchRes)
join_all post_join [] = some []
join_all post_join (name ∷ rest) =
    let later = join_all post_join rest in
    elim (post_join name) [
      | none ↦ none
      | some res ↦ elim later [ none ↦ none | some joins ↦ some (res ∷ joins) ]
    ]

-- `t.await??`
unfoldable pub await_task : Task → Result (Unit {0}) MainError
await_task Task.joining = err MainError.still_running
await_task (Task.not_joined e) = err (MainError.client_failed e)
await_task (Task.playing task) = elim task.ended [
  | none ↦ err MainError.still_running
  | some end ↦ map_err MainError.client_failed end
]

unfoldable pub await_tasks : (ℕ → Task) → List ℕ → Result (Unit {0}) MainError
await_tasks tasks [] = ok tt
await_tasks tasks (i ∷ rest) =
    let later = await_tasks tasks rest in
    elim (await_task (tasks i)) [ err e ↦ err e | ok _ ↦ later ]

abbrev pub player_id_at : List JoinMatchRes → ℕ → String
player_id_at joins i = elim (get_elem? joins i) [ none ↦ "" | some ticket ↦ ticket.player_id ]

module _ {F32 : Type 0} (read_reliable : List ℕ → Option ServerReliable)
    (read_datagram : List ℕ → Option (ServerDatagram F32))
    (write : ClientReliable → Option (List ℕ)) (http : Http) (net : Network) (accepts : ℕ → Bool)
    (events : List (ℕ × TaskEvent)) where
  unfoldable pub start_clients : Option String → List JoinMatchRes → Clients
  start_clients udp_override_url joins = record {
    stats = [];
    tasks = λ i. elim (get_elem? joins i) [
      | none ↦ Task.joining
      | some ticket ↦ start_task net write (accepts i) udp_override_url ticket
    ];
  }

  -- The tasks have done all that they do.
  abbrev pub settled : Option String → List JoinMatchRes → Clients
  settled udp_override_url joins =
      clients_run read_reliable read_datagram (player_id_at joins) events
        (start_clients udp_override_url joins)

  -- From the joins on: the first of them is the client that changes a parameter.
  unfoldable pub play_match : Settings → String → List JoinMatchRes → Result (Unit {0}) MainError
  play_match config match_id [] = err MainError.join_list_empty
  play_match config match_id (trigger ∷ others) = do
    let joins = trigger ∷ others
    let clients = settled config.udp_override_url joins
    room ← or_failed (http.get_match (match_url config.api_base match_id)) MainError.http_failed
    _ ← await_tasks clients.tasks (range 0 (length joins))
    map_err MainError.check_failed (verdict clients.stats room trigger.player_id)

  unfoldable pub main : (String → Option String) → Result (Unit {0}) MainError
  main var = do
    let config = settings var
    match_id ← or_failed (http.post_create (create_url config.api_base)) MainError.http_failed
    joins ←
        or_failed (join_all (http.post_join (join_url config.api_base match_id)) names)
          MainError.http_failed
    play_match config match_id joins
