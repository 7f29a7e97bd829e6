-- ===== src/Realtime/Tests/UdpTests.antt =====
-- Tests of Udp: the theorems with a small text format.
use kotatsu_backend.Prelude.{
  ==_of_eq, ℕ_eq, ◌≡◌, refl, String_eq, false, [], ◌∷◌, none, some, arith, All,
}
use kotatsu_backend.HashMap.{lookup, insert, remove}
use kotatsu_backend.Realtime.Types.{MatchRoom, Ticket, PlayerHandle, SocketAddr, udp, error}
use kotatsu_backend.Realtime.Player.{entering}
use kotatsu_backend.Realtime.State.{Server, ClientSession}
use kotatsu_backend.Realtime.ControlPlane.{issue_join_ticket, delete_room}
use kotatsu_backend.Realtime.Udp.Join.{checking, consuming, done, join_step, join_run, handle_join}
use kotatsu_backend.Realtime.Udp.Join.Effects.{handle_join_accepted, handle_join_unsent}
use kotatsu_backend.Realtime.Udp.Join.Stale.{handle_join_after_delete}
use kotatsu_backend.Realtime.Udp.Join.Race.{handle_join_race}
use kotatsu_backend.Realtime.Udp.Join.Issued.{handle_join_issued}
use kotatsu_backend.Realtime.Udp.Handlers.{handle_udp_packet}
use kotatsu_backend.Realtime.Udp.Strangers.{handle_udp_packet_stranger}
use kotatsu_backend.Realtime.Udp.Outgoing.{flush_outgoing}
use kotatsu_backend.Realtime.Udp.Flush.{waiting, flush_outgoing_lem}
use kotatsu_backend.Realtime.Samples.{core, server, lobby, running, ticket, codec, env, join_env}

handle_join_accepted_example :
    let s' = handle_join codec join_env 7004 "t_1" server in
    (s'.core ≡ record {
      matches =
          insert "m_1"
            (record lobby {
              players = insert "p_d" (entering none "dave" 7004 4) lobby.players;
              last_activity_unix = 1500;
            })
            core.matches;
      tickets = remove "t_1" core.tickets;
    })
    × (s'.sent ≡ record { dest = 7004; bytes = 1 ∷ 123 ∷ [] } ∷ [])
    × (lookup 7004 s'.clients
        ≡ some (record { match_id = "m_1"; player_id = "p_d"; addr = 7004; tx = 4; rx = 4 }))
    × (lookup 4 s'.channels ≡ some [])
unfolding lookup
handle_join_accepted_example =
    handle_join_accepted codec join_env 7004 "t_1" server ticket lobby (123 ∷ []) refl refl
      (omega arith) refl (omega arith) refl refl

handle_join_unsent_example :
    let s' = handle_join codec (record join_env { accepted = false }) 7004 "t_1" server in
    (room' : MatchRoom) × (lookup "m_1" s'.core.matches ≡ some room')
    × (lookup "p_d" room'.players ≡ none)
    × (lookup 7004 s'.clients ≡ none)
    × (lookup 4 s'.channels ≡ none)
    × (lookup "t_1" s'.core.tickets ≡ none)
    × (s'.sent ≡ [])
unfolding lookup
handle_join_unsent_example =
    handle_join_unsent codec (record join_env { accepted = false }) 7004 "t_1" server ticket lobby
      "p_d" refl refl (omega arith) refl (omega arith) refl

-- Dave joins the lobby, which is deleted; he has a ticket for the started match as well.
abbrev second_ticket : Ticket
second_ticket = record ticket { match_id = "m_2" }

abbrev with_second : Server
with_second = record server {
  core = record core { tickets = ("t_1", ticket) ∷ ("t_2", second_ticket) ∷ [] };
}

handle_join_after_delete_example :
    let joined = handle_join codec join_env 7004 "t_1" with_second in
    let deleted = record joined { core = (delete_room "m_1" joined.core).1 } in
    let s' = handle_join codec join_env 7004 "t_2" deleted in
    (lookup "m_1" deleted.core.matches ≡ none)
    × (s' ≡ deleted)
    × (lookup "t_2" s'.core.tickets ≡ some second_ticket)
    × (lookup "m_2" s'.core.matches ≡ some running)
unfolding lookup
handle_join_after_delete_example =
    handle_join_after_delete codec join_env join_env 7004 "t_1" "t_2" with_second ticket
      second_ticket lobby running (123 ∷ []) refl refl (omega arith) refl (omega arith) refl refl
      (refl, (refl, tt)) refl (λ q. absurd (ground (arith, ==_of_eq "t_1" "t_2" q))) refl
      (λ q. absurd (ground (arith, ==_of_eq "m_1" "m_2" q)))

handle_join_issued_example :
    let s1 = record server {
      core = (issue_join_ticket "udp://h" "m_1" "eve" "9" "t_2" 1100 core).1;
    } in
    let s' = handle_join codec join_env 7004 "t_2" s1 in
    (room : MatchRoom) × (p : PlayerHandle) × (lookup "m_1" s'.core.matches ≡ some room)
    × (lookup "p_9" room.players ≡ some p)
    × (p.connection ≡ some (udp 7004))
    × (lookup 7004 s'.clients
        ≡ some (record { match_id = "m_1"; player_id = "p_9"; addr = 7004; tx = 4; rx = 4 }))
    × (lookup "t_2" s'.core.tickets ≡ none)
unfolding lookup issue_join_ticket
handle_join_issued_example =
    handle_join_issued codec join_env 7004 "udp://h" "m_1" "eve" "9" "t_2" 1100 server
      (record {
        match_id = "m_1";
        player_id = "p_9";
        token = "t_2";
        token_expires_at_unix = 4700;
        udp_url = "udp://h";
      })
      refl (omega arith) (omega arith) refl refl (λ msg. (123 ∷ [], refl))

-- A position from an address that has not joined.
handle_udp_packet_stranger_example : handle_udp_packet codec env 7009 (2 ∷ 3 ∷ []) server ≡ server
unfolding lookup
handle_udp_packet_stranger_example =
    handle_udp_packet_stranger codec env 7009 (2 ∷ 3 ∷ []) server refl
      (λ payload e. absurd (ground arith))

flush_outgoing_example :
    let s = record server { channels = (1, error "a" "b" ∷ []) ∷ (2, []) ∷ [] } in
    let s' = flush_outgoing codec s in
    (s'.sent ≡ record { dest = 7001; bytes = 1 ∷ 123 ∷ [] } ∷ [])
    × All (λ (d : SocketAddr × ClientSession). waiting d.1 s'.channels ≡ []) server.clients
    × (s'.core ≡ core)
    × (s'.clients ≡ server.clients)
unfolding lookup
flush_outgoing_example =
    flush_outgoing_lem codec (record server { channels = (1, error "a" "b" ∷ []) ∷ (2, []) ∷ [] })
      (((λ e. ground arith), tt), (tt, tt))

abbrev two_tickets : Server
two_tickets = record server {
  core = record core {
    tickets = ("t_1", ticket) ∷ ("t_2", record ticket { player_id = "p_e" }) ∷ [];
  };
}

handle_join_race_example :
    let join_env' = record join_env { channel = 5 } in
    let s1 = handle_join codec join_env 7004 "t_1" two_tickets in
    let (task, s2) = join_run codec join_env' 7004 "t_2" 6 consuming s1 in
    (join_step codec join_env' 7004 "t_2" checking two_tickets ≡ (consuming, two_tickets))
    × (task ≡ done)
    × ((room' : MatchRoom) × (p : PlayerHandle) × (lookup "m_1" s2.core.matches ≡ some room')
        × (lookup "p_d" room'.players ≡ some p)
        × (p.reliable_tx ≡ 4)
        × (lookup 4 s2.channels ≡ none)
        × (lookup 7004 s2.clients
            ≡ some (record { match_id = "m_1"; player_id = "p_e"; addr = 7004; tx = 5; rx = 5 })))
unfolding lookup
handle_join_race_example =
    handle_join_race codec join_env (record join_env { channel = 5 }) 7004 "t_1" "t_2" two_tickets
      ticket (record ticket { player_id = "p_e" }) lobby refl refl refl
      (λ q. absurd (ground (arith, ==_of_eq "t_1" "t_2" q))) (omega arith) (omega arith) refl
      (λ q. absurd (ground (arith, ==_of_eq "p_e" "p_d" q))) refl (omega arith) refl refl
      (λ msg. (123 ∷ [], refl))
