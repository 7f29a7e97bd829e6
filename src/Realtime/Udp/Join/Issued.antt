-- ===== src/Realtime/Udp/Join/Issued.antt =====
-- From the ticket to the session: `issue_join_ticket` of grpc_service.rs, then `handle_join` of
-- udp_connection.rs.
use kotatsu_backend.Prelude.{
  ℕ, ℕ_eq, ◌+◌, ◌≤◌, ◌<◌, ◌≡◌, refl, String, String_eq, true, List, Option, none, some, arith, inl,
  inr, length, ok, Option-cases,
}
use kotatsu_backend.HashMap.{lookup, insert, lookup-insert_self, lookup-remove_self}
use kotatsu_backend.Realtime.Magicnums.{token_ttl_secs, u64_mod, room_max_players}
use kotatsu_backend.Realtime.Types.{
  SocketAddr, MatchRoom, PlayerHandle, ServerReliable, CoreState, join_ok, udp,
}
use kotatsu_backend.Realtime.Player.{entering}
use kotatsu_backend.Realtime.Status.{IssueJoinTicketResponse}
use kotatsu_backend.Realtime.State.{Server}
use kotatsu_backend.Realtime.ControlPlane.{issue_join_ticket, issued_ticket}
use kotatsu_backend.Realtime.Udp.Socket.{Codec}
use kotatsu_backend.Realtime.Udp.Join.{JoinEnv, handle_join}
use kotatsu_backend.Realtime.Udp.Join.Effects.{handle_join_accepted}

-- What an issued ticket means: the room had a free place, and is there with the ticket.
issued :
    (url match_id name uuid token : String) (now : ℕ) (core : CoreState)
    (res : IssueJoinTicketResponse)
    → (issue_join_ticket url match_id name uuid token now core).0 ≡ ok res
    → let core' = (issue_join_ticket url match_id name uuid token now core).1 in
      let t = issued_ticket match_id name uuid now in
      (room : MatchRoom) × (res.player_id ≡ t.player_id)
      × (lookup token core'.tickets ≡ some t)
      × (lookup match_id core'.matches ≡ some room)
      × (length room.players < room_max_players)
unfolding issue_join_ticket
issued url match_id name uuid token now core res h =
    elim (Option-cases (lookup match_id core.matches)) [
      | inl x ↦ absurd (ground arith)
      | inr (room, x) ↦
          let room' = record room { last_activity_unix = now } in
          (
            room',
            ground arith,
            ground (
              arith,
              lookup-insert_self token (issued_ticket match_id name uuid now) core.tickets,
            ),
            ground (arith, lookup-insert_self match_id room' core.matches),
            ground arith,
          )
    ]

-- The handle of a player who enters is connected at the address.
entering-connection :
    (o : Option PlayerHandle) (name : String) (addr : SocketAddr) (tx : ℕ)
    → (entering o name addr tx).connection ≡ some (udp addr)
unfolding entering
entering-connection none name addr tx = refl
entering-connection (some p) name addr tx = refl

-- A client that was issued a ticket and joins with it at once, from an address without a session and
-- before it expires, is afterwards a player of the match, connected at that address, has a session
-- for the match and the player id that it was told, and the ticket is gone. The replies can be
-- written, the socket sends, and the 64-bit clock does not overflow within the ticket's life.
pub handle_join_issued :
    {F32 : Type 0} (codec : Codec F32) (env : JoinEnv) (addr : SocketAddr)
    (url match_id name uuid token : String) (now : ℕ) (s : Server) (res : IssueJoinTicketResponse)
    → (issue_join_ticket url match_id name uuid token now s.core).0 ≡ ok res
    → now + token_ttl_secs < u64_mod
    → env.consumed_at ≤ now + token_ttl_secs
    → lookup addr s.clients ≡ none
    → env.accepted ≡ true
    → ((msg : ServerReliable) → (json : List ℕ) × (codec.write_reliable msg ≡ some json))
    → let s1 = record s { core = (issue_join_ticket url match_id name uuid token now s.core).1 } in
      let s' = handle_join codec env addr token s1 in
      (room : MatchRoom) × (p : PlayerHandle) × (lookup match_id s'.core.matches ≡ some room)
      × (lookup res.player_id room.players ≡ some p)
      × (p.connection ≡ some (udp addr))
      × (lookup addr s'.clients
          ≡ some (record {
            match_id = match_id;
            player_id = res.player_id;
            addr = addr;
            tx = env.channel;
            rx = env.channel;
          }))
      × (lookup token s'.core.tickets ≡ none)
handle_join_issued codec env addr url match_id name uuid token now s res h o fresh c a writes =
    let core' = (issue_join_ticket url match_id name uuid token now s.core).1 in
    let t = issued_ticket match_id name uuid now in
    let (room, pid, tl, ml, lt) = issued url match_id name uuid token now s.core res h in
    let p = entering (lookup t.player_id room.players) t.display_name addr env.channel in
    let (json, w) = writes (join_ok t.match_id t.player_id p.params env.now_ms) in
    let room' = record room {
      players = insert t.player_id p room.players;
      last_activity_unix = env.registered_at;
    } in
    let (e, _, session, _) =
      handle_join_accepted codec env addr token (record s { core = core' }) t room json c tl
        (omega arith) ml lt a w in
    rw (e, pid)
      (
        room',
        p,
        lookup-insert_self match_id room' core'.matches,
        lookup-insert_self t.player_id p room.players,
        entering-connection (lookup t.player_id room.players) t.display_name addr env.channel,
        session,
        lookup-remove_self token core'.tickets,
      )
