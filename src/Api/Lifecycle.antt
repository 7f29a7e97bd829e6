-- ===== src/Api/Lifecycle.antt =====
-- The life of a match as a client of the API sees it, over the realtime server.
use Prim.Native.String.{◌++◌ as str_append}
use kotatsu_backend.Prelude.{
  ◌+◌, ◌≡◌, ◌≢◌, ◌<◌, refl, sym, ap, ◌∙◌, ◌%◌, String, String_eq, [], none, some, length, arith,
  inl, inr, Bool, Bool-cases, All, true, ◌∷◌, leb, false, not, ◌==◌,
}
use kotatsu_backend.HashMap.{
  HashMap, lookup, insert, retain, contains_key, lookup-insert_self, lookup-remove_self,
}
use kotatsu_backend.Realtime.Core.Start.{
  start_room_again, start_room-lookup, started_room, start_room_first,
  assign_randomized_layout-started,
}
use kotatsu_backend.Realtime.Types.{MatchRoom, Ticket, new_room}
use kotatsu_backend.Realtime.State.{Server}
use kotatsu_backend.Realtime.Status.{Status}
use kotatsu_backend.Realtime.Broadcast.{broadcast_reliable_udp}
use kotatsu_backend.Realtime.ControlPlane.{
  create_room, issue_join_ticket, get_room, delete_room, match_id_of, issued_ticket,
}
use kotatsu_backend.Realtime.Magicnums.{token_ttl_secs, u64_mod}
use kotatsu_backend.Api.Types.{Body, Response, JoinMatchReq}
use kotatsu_backend.Api.Handlers.{
  respond, not_found, requested_name, create_match, join_match, join_response, get_match,
  get_response, start_match, start_response, delete_match, delete_response, match_error,
}
use kotatsu_backend.Api.Router.{ApiCall, handle}
use kotatsu_backend.Api.OverServer.{Moment, respond_to}

All-retain :
    {A : Type 0} (drops : A → Bool) (m : HashMap String A)
    → All (λ e. drops e.1 ≡ false) (retain (λ a. not (drops a)) m)
unfolding retain
All-retain drops [] = tt
All-retain drops ((key, value) ∷ rest) = elim (Bool-cases (drops value)) [
  | inl e ↦ rw (e, retain) (All-retain drops rest)
  | inr e ↦ rw (e, retain) (e, All-retain drops rest)
]

module _ (display : Status → String) (url : String) where
  -- A match that is there, and one that is not.
  create_room_lem :
      (at : Moment) (s : Server)
      → let (r, s') = respond_to url display at ApiCall.create_match s in
        (r
          ≡ respond 200
              (Body.create_match (record { match_id = match_id_of at.uuid; max_players = 4 })))
        × (lookup (match_id_of at.uuid) s'.core.matches ≡ some (new_room at.now))
  unfolding respond_to handle create_match create_room
  create_room_lem at s =
      (refl, lookup-insert_self (match_id_of at.uuid) (new_room at.now) s.core.matches)

  join_room_lem :
      (at : Moment) (match_id : String) (req : JoinMatchReq) (room : MatchRoom) (s : Server)
      → lookup match_id s.core.matches ≡ some room
      → length room.players < 4
      → let ticket = issued_ticket match_id (requested_name req) at.uuid at.now in
        respond_to url display at (ApiCall.join_match match_id req) s ≡ (
          respond 200 (
              Body.join_match (record {
                match_id = match_id;
                player_id = str_append "p_" at.uuid;
                token = at.token;
                udp_url = url;
                token_expires_at_unix = ticket.expires_at_unix;
              })),
          record s {
            core = record {
              matches =
                  insert match_id (record room { last_activity_unix = at.now }) s.core.matches;
              tickets = insert at.token ticket s.core.tickets;
            };
          },
        )
  unfolding respond_to handle join_match join_response issue_join_ticket requested_name
  join_room_lem at match_id req room s e few =
      let fits : leb 4 (length room.players) ≡ false = ground arith in
      rw (e, fits, issue_join_ticket) refl

  start_room_lem :
      (at : Moment) (match_id : String) (room : MatchRoom) (s : Server)
      → lookup match_id s.core.matches ≡ some room
      → room.started_at_unix ≡ 0
      → let (r, s') = respond_to url display at (ApiCall.start_match match_id) s in
        (r
          ≡ respond 200
              (Body.start_match (record { match_id = match_id; started_at_unix = at.now })))
        × (lookup match_id s'.core.matches ≡ some (started_room at.shuffle at.now room))
        × (s'.core.tickets ≡ s.core.tickets)
  unfolding respond_to handle start_match start_response broadcast_reliable_udp
  start_room_lem at match_id room s e lobby =
      let first = start_room_first at.shuffle match_id at.now at.now_ms s room e lobby in
      (
        rw first refl,
        start_room-lookup at.shuffle match_id at.now at.now_ms s room e lobby,
        rw first refl,
      )

  restart_room_lem :
      (at : Moment) (match_id : String) (room : MatchRoom) (s : Server)
      → lookup match_id s.core.matches ≡ some room
      → room.started_at_unix ≢ 0
      → respond_to url display at (ApiCall.start_match match_id) s ≡ (
        respond 200 (
            Body.start_match
              (record { match_id = match_id; started_at_unix = room.started_at_unix })),
        s,
      )
  unfolding respond_to handle start_match start_response
  restart_room_lem at match_id room s e started =
      let again = start_room_again at.shuffle match_id at.now at.now_ms s room e started in
      rw again refl

  delete_room_lem :
      (at : Moment) (match_id : String) (room : MatchRoom) (s : Server)
      → lookup match_id s.core.matches ≡ some room
      → let (r, s') = respond_to url display at (ApiCall.delete_match match_id) s in
        (r ≡ respond 204 Body.empty)
        × (lookup match_id s'.core.matches ≡ none)
        × (s'.core.tickets ≡ retain (λ (t : Ticket). not (t.match_id == match_id)) s.core.tickets)
  unfolding respond_to handle delete_match delete_response delete_room
  delete_room_lem at match_id room s e =
      let found : contains_key match_id s.core.matches ≡ true =
        unfold contains_key in ground arith in
      (
        rw (found, delete_room) refl,
        rw (found, delete_room) (lookup-remove_self match_id s.core.matches),
        rw (found, delete_room) refl,
      )

  gone_lem :
      (at : Moment) (match_id : String) (s : Server)
      → lookup match_id s.core.matches ≡ none
      → respond_to url display at (ApiCall.get_match match_id) s ≡ (not_found display, s)
  unfolding respond_to handle get_match get_response get_room match_error
  gone_lem at match_id s e = rw (e, get_room) refl

  -- A client creates a match, asks for a place in it, starts it, starts it again, and deletes it, with
  -- the clock not at zero at the first start. Then it gets a match for four players whose id is made
  -- of the fresh identifier, a ticket for it, the time of the first start from both starts, and 204; a
  -- request for the match is then answered with 404, and no ticket for it is left.
  pub match_lifecycle :
      (created joined started again deleted later : Moment) (req : JoinMatchReq) (s : Server)
      → started.now ≢ 0
      → let match_id = match_id_of created.uuid in
        let send =
          λ (at : Moment) (call : ApiCall) (state : Server). respond_to url display at call state in
        let (created_res, s1) = send created ApiCall.create_match s in
        let (joined_res, s2) = send joined (ApiCall.join_match match_id req) s1 in
        let (started_res, s3) = send started (ApiCall.start_match match_id) s2 in
        let (again_res, s4) = send again (ApiCall.start_match match_id) s3 in
        let (deleted_res, s5) = send deleted (ApiCall.delete_match match_id) s4 in
        let start : Response =
          respond 200
            (Body.start_match (record { match_id = match_id; started_at_unix = started.now })) in
        (created_res
          ≡ respond 200 (Body.create_match (record { match_id = match_id; max_players = 4 })))
        × (joined_res
            ≡ respond 200 (
                Body.join_match (record {
                  match_id = match_id;
                  player_id = str_append "p_" joined.uuid;
                  token = joined.token;
                  udp_url = url;
                  token_expires_at_unix = (joined.now + token_ttl_secs) % u64_mod;
                })))
        × (started_res ≡ start)
        × (again_res ≡ start)
        × (deleted_res ≡ respond 204 Body.empty)
        × (send later (ApiCall.get_match match_id) s5 ≡ (not_found display, s5))
        × All (λ e. (e.1.match_id == match_id) ≡ false) s5.core.tickets
  unfolding new_room
  match_lifecycle created joined started again deleted later req s clock =
      let match_id = match_id_of created.uuid in
      let s1 = (respond_to url display created ApiCall.create_match s).1 in
      let s2 = (respond_to url display joined (ApiCall.join_match match_id req) s1).1 in
      let s3 = (respond_to url display started (ApiCall.start_match match_id) s2).1 in
      let s4 = (respond_to url display again (ApiCall.start_match match_id) s3).1 in
      let room = new_room created.now in
      let (created_is, there) = create_room_lem created s in
      let joined_is = join_room_lem joined match_id req room s1 there (omega arith) in
      let waiting = record room { last_activity_unix = joined.now } in
      let there2 : lookup match_id s2.core.matches ≡ some waiting =
        rw joined_is (lookup-insert_self match_id waiting s1.core.matches) in
      let (started_is, there3, tickets) = start_room_lem started match_id waiting s2 there2 refl in
      let room' = started_room started.shuffle started.now waiting in
      let time =
        assign_randomized_layout-started started.shuffle
          (record waiting { started_at_unix = started.now; last_activity_unix = started.now }) in
      let again_is = restart_room_lem again match_id room' s3 there3 (λ z. clock (sym time ∙ z)) in
      let there4 : lookup match_id s4.core.matches ≡ some room' = rw again_is there3 in
      let (deleted_is, gone, left) = delete_room_lem deleted match_id room' s4 there4 in
      let s5 = (respond_to url display deleted (ApiCall.delete_match match_id) s4).1 in
      (
        created_is,
        ap (λ x. x.0) joined_is,
        started_is,
        ap (λ x. x.0) again_is
            ∙ ap
                (λ t.
                  respond 200
                    (Body.start_match (record { match_id = match_id; started_at_unix = t })))
                time,
        deleted_is,
        gone_lem later match_id s5 gone,
        rw left (All-retain (λ (t : Ticket). t.match_id == match_id) s4.core.tickets),
      )
