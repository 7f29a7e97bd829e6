-- ===== src/Realtime/Core/Tickets.antt =====
-- The life of a ticket: `issue_join_ticket` of grpc_service.rs and `consume_ticket` of ticket.rs.
use kotatsu_backend.Prelude.{
  ℕ, ◌+◌, ◌<◌, ◌≡◌, String, String_eq, not, List, [], ◌∷◌, none, arith, inl, inr, Option-cases, ok,
  err, leb, if◌then◌else◌, All, ◌==◌, map, filter, ok_or,
}
use kotatsu_backend.HashMap.{
  lookup, lookup-insert_self, lookup-insert_ne, lookup-remove, lookup-remove_self,
  lookup-retain-none,
}
use kotatsu_backend.Realtime.Magicnums.{u64_mod, token_ttl_secs}
use kotatsu_backend.Realtime.Types.{CoreState}
use kotatsu_backend.Realtime.Error.{Error}
use kotatsu_backend.Realtime.Ticket.{consume_ticket}
use kotatsu_backend.Realtime.Player
use kotatsu_backend.Realtime.Room
use kotatsu_backend.Realtime.Room.{contains, is_stale}
use kotatsu_backend.Realtime.ControlPlane.{
  issue_join_ticket, issued_ticket, create_room, delete_room,
}
use kotatsu_backend.Realtime.Status.{IssueJoinTicketResponse}
use kotatsu_backend.Realtime.Core.{Call, step, run}

-- A ticket that was issued is consumed, at any time up to its expiry, for the match, the player and
-- the name that it was issued for; later than that it is refused as expired. The 64-bit clock does
-- not overflow within the ticket's life.
pub consume-issue :
    (url match_id name uuid token : String) (now later : ℕ) (core : CoreState)
    (res : IssueJoinTicketResponse)
    → (issue_join_ticket url match_id name uuid token now core).0 ≡ ok res
    → now + token_ttl_secs < u64_mod
    → (consume_ticket token later (issue_join_ticket url match_id name uuid token now core).1).0 ≡ (
        if leb later (now + token_ttl_secs)
        then ok (match_id, res.player_id, (issued_ticket match_id name uuid now).display_name)
        else err Error.token_expired)
unfolding issue_join_ticket consume_ticket
consume-issue url match_id name uuid token now later core res e h =
    elim (Option-cases (lookup match_id core.matches)) [
      | inl x ↦ ground arith
      | inr (room, x) ↦
          ground
            (arith, lookup-insert_self token (issued_ticket match_id name uuid now) core.tickets)
    ]

-- A call that issues the token.
abbrev pub IssuesToken : String → Call → Type 0
IssuesToken token (Call.issue_join_ticket url match_id name uuid token' now) = token' ≡ token
IssuesToken token _ = ⊥

IsGone : String → CoreState → Type 0
IsGone token core = lookup token core.tickets ≡ none

consume_ticket-IsGone :
    (token : String) (now : ℕ) (core : CoreState) → IsGone token (consume_ticket token now core).1
unfolding consume_ticket IsGone
consume_ticket-IsGone token now core = elim (Option-cases (lookup token core.tickets)) [
  | inl e ↦ ground arith
  | inr (t, e) ↦ ground (arith, lookup-remove_self token core.tickets)
]

-- No other call brings a token back.
step-IsGone :
    (token : String) (core : CoreState) (call : Call)
    → ¬ IssuesToken token call
    → IsGone token core
    → IsGone token (step core call)
unfolding step IsGone
step-IsGone token core (Call.create_room uuid now) other g = unfold create_room in g
step-IsGone token core (Call.issue_join_ticket url m name uuid token' now) other g =
    unfold issue_join_ticket in
    ground (arith, lookup-insert_ne token' token (issued_ticket m name uuid now) core.tickets other)
step-IsGone token core (Call.start_match shuffle m now) other g =
    unfold Room.start_match_and_snapshot_players in ground arith
step-IsGone token core (Call.finish_player m p now) other g =
    unfold Room.finish_player in ground arith
step-IsGone token core (Call.delete_room m) other g =
    unfold delete_room in
    ground (arith, lookup-retain-none (λ t. not (t.match_id == m)) token core.tickets)
step-IsGone token core (Call.delete_stale_lobby_rooms timeout now) other g =
    unfold Room.delete_stale_lobby_rooms in
    let ids = map (λ e. e.0) (filter (λ e. is_stale now timeout e.1) core.matches) in
    ground (arith, lookup-retain-none (λ t. not (contains ids t.match_id)) token core.tickets)
step-IsGone token core (Call.consume_ticket token' now) other g =
    unfold consume_ticket in ground (arith, lookup-remove token' token core.tickets)
step-IsGone token core (Call.register_player m p name addr tx now) other g =
    unfold Player.register_player_udp in ground arith
step-IsGone token core (Call.remove_player m p now) other g =
    unfold Player.remove_player in ground arith
step-IsGone token core (Call.update_player_params m p kind dir now later) other g =
    unfold Room.update_player_params in ground arith

run-IsGone :
    (token : String) (core : CoreState) (calls : List Call)
    → All (λ call. ¬ IssuesToken token call) calls
    → IsGone token core
    → IsGone token (run core calls)
unfolding run
run-IsGone token core [] h g = g
run-IsGone token core (call ∷ calls) h g =
    run-IsGone token (step core call) calls h.1 (step-IsGone token core call h.0 g)

-- A token is good for one attempt: once it has been presented, successfully or not, it is refused as
-- invalid after any further calls, as long as none of these issues the same token again.
pub consume_ticket_single_use :
    (token : String) (now later : ℕ) (core : CoreState) (calls : List Call)
    → All (λ call. ¬ IssuesToken token call) calls
    → (consume_ticket token later (run (consume_ticket token now core).1 calls)).0
      ≡ err Error.invalid_token
unfolding consume_ticket IsGone
consume_ticket_single_use token now later core calls h = rw (
  run-IsGone token (consume_ticket token now core).1 calls h (consume_ticket-IsGone token now core),
  ok_or,
)
