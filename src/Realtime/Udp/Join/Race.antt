-- ===== src/Realtime/Udp/Join/Race.antt =====
-- Two joins from one address at once: `handle_join` of udp_connection.rs checks for a session and
-- records one under two separate locks.
use kotatsu_backend.Prelude.{
  ℕ, ℕ_eq, ◌+◌, ◌≤◌, ◌<◌, ◌≡◌, ◌≢◌, refl, ◌∙◌, String, String_eq, true, List, [], Option, none,
  some, arith, length, ==_of_ne, subst,
}
use kotatsu_backend.HashMap.{
  lookup, insert, lookup-insert_self, lookup-insert_ne, lookup-remove, lookup-remove_self,
  length-insert,
}
use kotatsu_backend.Realtime.Magicnums.{room_max_players}
use kotatsu_backend.Realtime.Types.{
  SocketAddr, Ticket, MatchRoom, PlayerHandle, ServerReliable, join_ok,
}
use kotatsu_backend.Realtime.Player.{entering}
use kotatsu_backend.Realtime.State.{Server}
use kotatsu_backend.Realtime.Udp.Socket.{Codec}
use kotatsu_backend.Realtime.Udp.Join.{
  JoinEnv, checking, consuming, done, join_run, handle_join, put_session, drop_session, join_step,
}
use kotatsu_backend.Realtime.Udp.Join.Sections.{join_step-checking}
use kotatsu_backend.Realtime.Udp.Join.Runs.{
  registered, session_of, join_run_consuming, join_run_replying,
}
use kotatsu_backend.Realtime.Udp.Join.Effects.{handle_join_accepted}

entering-tx :
    (o : Option PlayerHandle) (name : String) (addr : SocketAddr) (tx : ℕ)
    → (entering o name addr tx).reliable_tx ≡ tx
unfolding entering
entering-tx none name addr tx = refl
entering-tx (some p) name addr tx = refl

module _ {F32 : Type 0} (codec : Codec F32) (envA envB : JoinEnv) (addr : SocketAddr) where
  -- The check and the recording of a session are not one section. Of two joins from one address, for
  -- two players of one match with two free places, where the second has made its check before the
  -- first runs to its end: both succeed, the address is left with the session of the second, and the
  -- player of the first stays in the room with a channel that nobody receives from. The tickets are
  -- in time, and the replies can be written and are sent.
  pub handle_join_race :
      (tokA tokB : String) (s : Server) (t u : Ticket) (room : MatchRoom)
      → lookup addr s.clients ≡ none
      → lookup tokA s.core.tickets ≡ some t
      → lookup tokB s.core.tickets ≡ some u
      → tokA ≢ tokB
      → envA.consumed_at ≤ t.expires_at_unix
      → envB.consumed_at ≤ u.expires_at_unix
      → t.match_id ≡ u.match_id
      → u.player_id ≢ t.player_id
      → lookup t.match_id s.core.matches ≡ some room
      → length room.players + 1 < room_max_players
      → envA.accepted ≡ true
      → envB.accepted ≡ true
      → ((msg : ServerReliable) → (json : List ℕ) × (codec.write_reliable msg ≡ some json))
      → let s1 = handle_join codec envA addr tokA s in
        let (task, s2) = join_run codec envB addr tokB 6 consuming s1 in
        (join_step codec envB addr tokB checking s ≡ (consuming, s))
        × (task ≡ done)
        × ((room' : MatchRoom) × (p : PlayerHandle) × (lookup u.match_id s2.core.matches
              ≡ some room')
            × (lookup t.player_id room'.players ≡ some p)
            × (p.reliable_tx ≡ envA.channel)
            × (lookup envA.channel s2.channels ≡ none)
            × (lookup addr s2.clients ≡ some (session_of codec envB addr tokB u)))
  unfolding put_session drop_session
  handle_join_race tokA tokB s t u room c lt lu ne ft fu m ids r places aA aB writes =
      let pA = entering (lookup t.player_id room.players) t.display_name addr envA.channel in
      let room1 = record room {
        players = insert t.player_id pA room.players;
        last_activity_unix = envA.registered_at;
      } in
      let (jA, wA) = writes (join_ok t.match_id t.player_id pA.params envA.now_ms) in
      let s1 = handle_join codec envA addr tokA s in
      let (ec, _, es, _) =
        handle_join_accepted codec envA addr tokA s t room jA c lt ft r (omega arith) aA wA in
      let pB = entering (lookup u.player_id room1.players) u.display_name addr envB.channel in
      let (jB, wB) = writes (join_ok u.match_id u.player_id pB.params envB.now_ms) in
      let s2 = registered codec envB addr tokB u room1 s1 in
      let room2 = record room1 {
        players = insert u.player_id pB room1.players;
        last_activity_unix = envB.registered_at;
      } in
      let ticketB : lookup tokB s1.core.tickets ≡ some u =
        rw ec (ground (arith, lookup-remove tokA tokB s.core.tickets, ==_of_ne tokA tokB ne)) in
      let roomB : lookup u.match_id s1.core.matches ≡ some room1 =
        subst (λ k. lookup k s1.core.matches ≡ some room1) (m)
          (rw ec (lookup-insert_self t.match_id room1 s.core.matches)) in
      rw
        (join_run_consuming codec envB addr tokB s1 u room1 ticketB fu roomB
            (ground (arith, length-insert t.player_id pA room.players))
          ∙ join_run_replying codec envB addr tokB
              (put_session addr (session_of codec envB addr tokB u) s2) u.match_id u.player_id
              pB.params jB aB wB)
        (
          join_step-checking codec envB addr tokB s c,
          refl,
          (
            room2,
            pA,
            lookup-insert_self u.match_id room2 s1.core.matches,
            lookup-insert_ne u.player_id t.player_id pB room1.players ids
                ∙ lookup-insert_self t.player_id pA room.players,
            entering-tx (lookup t.player_id room.players) t.display_name addr envA.channel,
            ground
                (arith, es, lookup-remove_self envA.channel (insert envB.channel [] s1.channels)),
            lookup-insert_self addr (session_of codec envB addr tokB u) s1.clients,
          ),
        )
