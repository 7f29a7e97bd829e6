-- ===== src/Api/Outcomes.antt =====
-- The API's answers where the control plane of the realtime server answers: api-server/src/main.rs
-- over realtime-server/src/grpc_service.rs.
use kotatsu_backend.Prelude.{
  ℕ, ◌≡◌, String, String_eq, Option, none, some, length, arith, inl, inr, nat_eq, leb,
  if◌then◌else◌, Option-cases, Bool-cases,
}
use kotatsu_backend.HashMap.{lookup, contains_key}
use kotatsu_backend.Realtime.Types.{CoreState}
use kotatsu_backend.Realtime.Error.{to_string}
use kotatsu_backend.Realtime.Layout.{Shuffle}
use kotatsu_backend.Realtime.State.{Server}
use kotatsu_backend.Realtime.Status.{Status}
use kotatsu_backend.Realtime.Room.{finish_player, start_match_and_snapshot_players}
use kotatsu_backend.Realtime.ControlPlane.{
  issue_join_ticket, get_room, start_room, finish_room, delete_room, finish_status,
}
use kotatsu_backend.Api.Types.{
  Body, Response, status_ok, status_no_content, status_not_found, status_conflict, JoinMatchReq,
}
use kotatsu_backend.Api.Handlers.{join_match, get_match, start_match, finish_match, delete_match}

-- The status of a response, with the text of its error if it is one.
abbrev pub answer : Response → ℕ × Option String
answer r = (r.status, elim r.body [ Body.error text ↦ some text | _ ↦ none ])

module _ (display : Status → String) where
  -- A finish is answered with 404 and what is missing where there is no such match or no such player
  -- in it, with 409 before the start, and otherwise with 200.
  pub finish_match_lem :
      (match_id player_id : String) (now : ℕ) (core : CoreState)
      → answer (
          finish_match display
            (λ m p. (finish_room m p now core).0)
            match_id
            (record { player_id = player_id }))
        ≡ elim (lookup match_id core.matches) [
          | none ↦ (status_not_found, some "match_not_found")
          | some room ↦
              if nat_eq room.started_at_unix 0
              then (status_conflict, some "match_not_started")
              else if contains_key player_id room.players
              then (status_ok, none)
              else (status_not_found, some "player_not_found")
        ]
  unfolding finish_match finish_room finish_player finish_status to_string
  finish_match_lem match_id player_id now core =
      elim (Option-cases (lookup match_id core.matches)) [
        | inl e ↦ ground arith
        | inr (room, e) ↦ elim (Bool-cases (contains_key player_id room.players)) [
          | inl x ↦ ground arith
          | inr x ↦ ground arith
        ]
      ]

  -- A join is answered with 404 where there is no such match, with 409 where it has four players,
  -- and otherwise with 200.
  pub join_match_lem :
      (url match_id uuid token : String) (req : JoinMatchReq) (now : ℕ) (core : CoreState)
      → answer (
          join_match display
            (λ m name. (issue_join_ticket url m name uuid token now core).0)
            match_id
            req)
        ≡ elim (lookup match_id core.matches) [
          | none ↦ (status_not_found, some "match_not_found")
          | some room ↦
              if leb 4 (length room.players)
              then (status_conflict, some "match_full")
              else (status_ok, none)
        ]
  unfolding join_match issue_join_ticket
  join_match_lem url match_id uuid token req now core =
      elim (Option-cases (lookup match_id core.matches)) [
        | inl e ↦ ground arith
        | inr (room, e) ↦ ground arith
      ]

  -- Getting, starting and deleting a match are answered with 404 exactly where there is no such
  -- match, and otherwise with their success.
  pub match_requests_lem :
      (shuffle : Shuffle) (match_id : String) (now now_ms : ℕ) (s : Server)
      → let found = contains_key match_id s.core.matches in
        let missing : ℕ × Option String = (status_not_found, some "match_not_found") in
        (answer (get_match display (λ m. get_room m s.core) match_id)
          ≡ (if found then (status_ok, none) else missing))
        × (answer (start_match display (λ m. (start_room shuffle m now now_ms s).0) match_id)
            ≡ (if found then (status_ok, none) else missing))
        × (answer (delete_match display (λ m. (delete_room m s.core).0) match_id)
            ≡ (if found then (status_no_content, none) else missing))
  unfolding get_match get_room start_match start_room start_match_and_snapshot_players delete_match
      delete_room contains_key
  match_requests_lem shuffle match_id now now_ms s =
      elim (Option-cases (lookup match_id s.core.matches)) [
        | inl e ↦ (ground arith, ground arith, ground arith)
        | inr (room, e) ↦ (ground arith, ground arith, ground arith)
      ]
