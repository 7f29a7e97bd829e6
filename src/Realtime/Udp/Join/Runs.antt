-- ===== src/Realtime/Udp/Join/Runs.antt =====
-- The run of a join alone, up to its reply and from there to its end.
use kotatsu_backend.Prelude.{
  ℕ, ℕ_eq, ◌∙◌, ◌<◌, ◌≤◌, ◌≡◌, refl, String, String_eq, true, false, List, [], ◌∷◌, none, some,
  length,
}
use kotatsu_backend.HashMap.{lookup, insert, remove}
use kotatsu_backend.Realtime.Magicnums.{room_max_players}
use kotatsu_backend.Realtime.Types.{SocketAddr, PlayerParams, Ticket, MatchRoom, join_ok}
use kotatsu_backend.Realtime.Player.{entering, remove_player}
use kotatsu_backend.Realtime.Broadcast.{pkt_reliable}
use kotatsu_backend.Realtime.State.{Server, ClientSession}
use kotatsu_backend.Realtime.Udp.Socket.{Codec, put_packet}
use kotatsu_backend.Realtime.Udp.Join.{
  JoinEnv, checking, consuming, registering, recording, replying, unregistering, removing, done,
  join_step, join_run, put_session,
}
use kotatsu_backend.Realtime.Udp.Join.Sections.{
  join_run_step, join_step-checking, join_step-consuming, join_step-registering, join_step-replying,
  join_run_done, join_step-unsent, join_step-unregistering,
}

module _ {F32 : Type 0} (codec : Codec F32) (env : JoinEnv) (addr : SocketAddr)
    (token : String) where
  -- The state after the sections that consume the ticket and register the player.
  abbrev pub registered : Ticket → MatchRoom → Server → Server
  registered t room s = record s {
    core = record {
      matches =
          insert t.match_id
            (record room {
              players =
                  insert t.player_id
                    (entering (lookup t.player_id room.players) t.display_name addr env.channel)
                    room.players;
              last_activity_unix = env.registered_at;
            })
            s.core.matches;
      tickets = remove token s.core.tickets;
    };
    channels = insert env.channel [] s.channels;
  }

  abbrev pub session_of : Ticket → ClientSession
  session_of t = record {
    match_id = t.match_id;
    player_id = t.player_id;
    addr = addr;
    tx = env.channel;
    rx = env.channel;
  }

  -- From its second section on, the join of a ticket in time registers the player and records the
  -- session, whatever session the address has.
  pub join_run_consuming :
      (s : Server) (t : Ticket) (room : MatchRoom)
      → lookup token s.core.tickets ≡ some t
      → env.consumed_at ≤ t.expires_at_unix
      → lookup t.match_id s.core.matches ≡ some room
      → length room.players < room_max_players
      → let p = entering (lookup t.player_id room.players) t.display_name addr env.channel in
        join_run codec env addr token 6 consuming s
        ≡ join_run codec env addr token 3
            (replying t.match_id t.player_id p.params)
            (put_session addr (session_of t) (registered t room s))
  unfolding join_step
  join_run_consuming s t room l fresh r lt =
      let p = entering (lookup t.player_id room.players) t.display_name addr env.channel in
      let s1 = record s { core = record s.core { tickets = remove token s.core.tickets } } in
      join_run_step codec env addr token 5 consuming
        (registering t.match_id t.player_id t.display_name) s s1
        (join_step-consuming codec env addr token s t l fresh)
      ∙ join_run_step codec env addr token 4 (registering t.match_id t.player_id t.display_name)
          (recording t.match_id t.player_id p.params) s1 (registered t room s)
          (join_step-registering codec env addr token s1 t.match_id t.player_id t.display_name room
            r lt)
      ∙ join_run_step codec env addr token 3 (recording t.match_id t.player_id p.params)
          (replying t.match_id t.player_id p.params) (registered t room s)
          (put_session addr (session_of t) (registered t room s)) refl

  pub join_run_recording :
      (s : Server) (t : Ticket) (room : MatchRoom)
      → lookup addr s.clients ≡ none
      → lookup token s.core.tickets ≡ some t
      → env.consumed_at ≤ t.expires_at_unix
      → lookup t.match_id s.core.matches ≡ some room
      → length room.players < room_max_players
      → let p = entering (lookup t.player_id room.players) t.display_name addr env.channel in
        join_run codec env addr token 7 checking s
        ≡ join_run codec env addr token 3
            (replying t.match_id t.player_id p.params)
            (put_session addr (session_of t) (registered t room s))
  join_run_recording s t room c l fresh r lt =
      join_run_step codec env addr token 6 checking consuming s s
        (join_step-checking codec env addr token s c)
      ∙ join_run_consuming s t room l fresh r lt

  -- The reply that is sent ends the join.
  pub join_run_replying :
      (s : Server) (m id : String) (params : PlayerParams) (json : List ℕ)
      → env.accepted ≡ true
      → codec.write_reliable (join_ok m id params env.now_ms) ≡ some json
      → join_run codec env addr token 3 (replying m id params) s
        ≡ (done, put_packet addr (pkt_reliable ∷ json) s)
  join_run_replying s m id params json a w =
      join_run_step codec env addr token 2 (replying m id params) done s
        (put_packet addr (pkt_reliable ∷ json) s)
        (join_step-replying codec env addr token s m id params json a w)
      ∙ join_run_done codec env addr token 2 (put_packet addr (pkt_reliable ∷ json) s)

  pub unregistered :
      (s : Server) (session : ClientSession) (params : PlayerParams)
      → lookup addr s.clients ≡ some session
      → env.accepted ≡ false
      → join_run codec env addr token 3 (replying session.match_id session.player_id params) s ≡ (
        done,
        record s {
          core = remove_player session.match_id session.player_id env.removed_at s.core;
          clients = remove addr s.clients;
          channels = remove session.rx s.channels;
        },
      )
  unfolding join_step
  unregistered s session params h a =
      let s1 = record s {
        clients = remove addr s.clients;
        channels = remove session.rx s.channels;
      } in
      join_run_step codec env addr token 2 (replying session.match_id session.player_id params)
        unregistering s s
        (join_step-unsent codec env addr token s session.match_id session.player_id params a)
      ∙ join_run_step codec env addr token 1 unregistering
          (removing session.match_id session.player_id) s s1
          (join_step-unregistering codec env addr token s session h)
      ∙ join_run_step codec env addr token 0 (removing session.match_id session.player_id) done s1
          (record s1 {
            core = remove_player session.match_id session.player_id env.removed_at s1.core;
          })
          refl
      ∙ join_run_done codec env addr token 0 (record s1 {
        core = remove_player session.match_id session.player_id env.removed_at s1.core;
      })
