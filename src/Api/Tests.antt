-- ===== src/Api/Tests.antt =====
-- Tests of Api.
use mathlib.Core.List.{Mem}
use kotatsu_backend.Prelude.{ℕ, ◌≡◌, refl, String, String_eq, false, ◌==◌, All, none, some, arith}
use kotatsu_backend.HashMap.{lookup, contains_key}
use kotatsu_backend.Realtime.Status.{Status}
use kotatsu_backend.Realtime.ControlPlane.{
  issue_join_ticket, finish_room, get_room, start_room, delete_room,
}
use kotatsu_backend.Realtime.Samples.{core, server, no_shuffle}
use kotatsu_backend.Realtime.State.{Server}
use kotatsu_backend.Api.Types.{Body, Response}
use kotatsu_backend.Api.Documentation.{Operation, OperationDoc, api_doc}
use kotatsu_backend.Api.Router.{ApiCall, handle, settings}
use kotatsu_backend.Api.OverServer.{Moment, server_client, respond_to}
use kotatsu_backend.Api.Documented.{IsRouted, statuses, handle_lem}
use kotatsu_backend.Api.Lifecycle.{match_lifecycle}
use kotatsu_backend.Api.Handlers.{
  respond, not_found, finish_match, join_match, get_match, start_match, delete_match,
}
use kotatsu_backend.Api.Outcomes.{answer, finish_match_lem, join_match_lem, match_requests_lem}

abbrev message : Status → String
message s = s.message

finish_match_example :
    answer (
      finish_match message
        (λ m p. (finish_room m p 1100 core).0)
        "m_1"
        (record { player_id = "p_a" }))
    ≡ (409, some "match_not_started")
unfolding lookup
finish_match_example = finish_match_lem message "m_1" "p_a" 1100 core

join_match_example :
    answer (
      join_match message
        (λ m name. (issue_join_ticket "udp://h" m name "9" "t_2" 1100 core).0)
        "m_9"
        (record { display_name = none }))
    ≡ (404, some "match_not_found")
unfolding lookup
join_match_example =
    join_match_lem message "udp://h" "m_9" "9" "t_2" (record { display_name = none }) 1100 core

match_requests_example :
    (answer (get_match message (λ m. get_room m core) "m_2") ≡ (200, none))
    × (answer (start_match message (λ m. (start_room no_shuffle m 1100 1100000 server).0) "m_2")
        ≡ (200, none))
    × (answer (delete_match message (λ m. (delete_room m core).0) "m_2") ≡ (204, none))
unfolding lookup contains_key
match_requests_example = match_requests_lem message no_shuffle "m_2" 1100 1100000 server

abbrev moment : ℕ → Moment
moment now = record { uuid = "9"; token = "t_9"; now = now; now_ms = now; shuffle = no_shuffle }

handle_example :
    (doc : OperationDoc) × Mem doc api_doc
    × (doc.operation ≡ Operation.join_match)
    × IsRouted doc
    × Mem
        (handle message
          (server_client "udp://h" (moment 1100))
          (ApiCall.join_match "m_2" (record { display_name = none }))
          server).0.status
        (statuses doc)
handle_example =
    handle_lem message (server_client "udp://h" (moment 1100))
      (ApiCall.join_match "m_2" (record { display_name = none })) server

match_lifecycle_example :
    let send = λ (now : ℕ) (call : ApiCall) (state : Server).
      respond_to "udp://h" message (moment now) call state in
    let (created_res, s1) = send 1100 ApiCall.create_match server in
    let (joined_res, s2) =
      send 1101 (ApiCall.join_match "m_9" (record { display_name = none })) s1 in
    let (started_res, s3) = send 1102 (ApiCall.start_match "m_9") s2 in
    let (again_res, s4) = send 1103 (ApiCall.start_match "m_9") s3 in
    let (deleted_res, s5) = send 1104 (ApiCall.delete_match "m_9") s4 in
    let start : Response =
      respond 200 (Body.start_match (record { match_id = "m_9"; started_at_unix = 1102 })) in
    (created_res ≡ respond 200 (Body.create_match (record { match_id = "m_9"; max_players = 4 })))
    × (joined_res
        ≡ respond 200 (
            Body.join_match (record {
              match_id = "m_9";
              player_id = "p_9";
              token = "t_9";
              udp_url = "udp://h";
              token_expires_at_unix = 4701;
            })))
    × (started_res ≡ start)
    × (again_res ≡ start)
    × (deleted_res ≡ respond 204 Body.empty)
    × (send 1105 (ApiCall.get_match "m_9") s5 ≡ (not_found message, s5))
    × All (λ e. (e.1.match_id == "m_9") ≡ false) s5.core.tickets
match_lifecycle_example =
    match_lifecycle message "udp://h" (moment 1100) (moment 1101) (moment 1102) (moment 1103)
      (moment 1104) (moment 1105) (record { display_name = none }) server
      (λ e. absurd (ground arith))

settings_without_variables :
    settings (λ (name : String). none)
    ≡ record { api_addr = "0.0.0.0:8080"; control_plane_url = "http://127.0.0.1:50051" }
unfolding settings
settings_without_variables = refl
