-- ===== src/Realtime/Udp/Join/Effects.antt =====
-- What a join that runs alone does: `handle_join` and `remove_client` of udp_connection.rs.
use kotatsu_backend.Prelude.{
  ℕ, ℕ_eq, ap, ◌∙◌, ◌<◌, ◌≤◌, ◌≡◌, refl, String, String_eq, true, false, List, [], ◌∷◌, ◌++◌, none,
  some, arith, length, if◌then◌else◌, ◌==◌,
}
use kotatsu_backend.HashMap.{
  lookup, insert, remove, lookup-insert_self, lookup-remove_self, lookup-insert, lookup-remove,
}
use kotatsu_backend.Realtime.Magicnums.{room_max_players}
use kotatsu_backend.Realtime.Types.{SocketAddr, Ticket, MatchRoom, join_ok}
use kotatsu_backend.Realtime.Player.{entering, remove_player}
use kotatsu_backend.Realtime.Broadcast.{pkt_reliable}
use kotatsu_backend.Realtime.State.{Server}
use kotatsu_backend.Realtime.Udp.Socket.{Codec, put_packet}
use kotatsu_backend.Realtime.Udp.Join.{
  JoinEnv, checking, consuming, replying, done, join_step, handle_join, put_session, drop_session,
}
use kotatsu_backend.Realtime.Udp.Join.Sections.{
  join_run_step, join_run_done, join_step-replying, join_step-checking, join_step-unauthorized,
}
use kotatsu_backend.Realtime.Udp.Join.Runs.{
  registered, session_of, join_run_recording, unregistered,
}

module _ {F32 : Type 0} (codec : Codec F32) (env : JoinEnv) (addr : SocketAddr)
    (token : String) where
  -- From an address without a session, a join with a ticket in time for a room with a free place, whose
  -- reply is written and sent, puts the player into the room with the address and a new, empty
  -- channel, keeps what the player had there, consumes the ticket, opens the session, and sends one
  -- packet with the reply to the address.
  pub handle_join_accepted :
      (s : Server) (t : Ticket) (room : MatchRoom) (json : List ℕ)
      → lookup addr s.clients ≡ none
      → lookup token s.core.tickets ≡ some t
      → env.consumed_at ≤ t.expires_at_unix
      → lookup t.match_id s.core.matches ≡ some room
      → length room.players < room_max_players
      → env.accepted ≡ true
      → let p = entering (lookup t.player_id room.players) t.display_name addr env.channel in
        codec.write_reliable (join_ok t.match_id t.player_id p.params env.now_ms) ≡ some json
        → let s' = handle_join codec env addr token s in
          let room' = record room {
            players = insert t.player_id p room.players;
            last_activity_unix = env.registered_at;
          } in
          (s'.core ≡ record {
            matches = insert t.match_id room' s.core.matches;
            tickets = remove token s.core.tickets;
          })
          × (s'.sent ≡ s.sent ++ record { dest = addr; bytes = pkt_reliable ∷ json } ∷ [])
          × (lookup addr s'.clients
              ≡ some (record {
                match_id = t.match_id;
                player_id = t.player_id;
                addr = addr;
                tx = env.channel;
                rx = env.channel;
              }))
          × (lookup env.channel s'.channels ≡ some [])
  unfolding handle_join put_session drop_session
  handle_join_accepted s t room json c l fresh r lt a w =
      let p = entering (lookup t.player_id room.players) t.display_name addr env.channel in
      let s' =
        put_session addr (session_of codec env addr token t)
          (registered codec env addr token t room s) in
      rw
        (
          join_run_recording codec env addr token s t room c l fresh r lt
              ∙ join_run_step codec env addr token 2 (replying t.match_id t.player_id p.params) done
                  s' (put_packet addr (pkt_reliable ∷ json) s')
                  (join_step-replying codec env addr token s' t.match_id t.player_id p.params json a
                    w)
              ∙ join_run_done codec env addr token 2 (put_packet addr (pkt_reliable ∷ json) s'),
          handle_join,
        )
        (
          refl,
          refl,
          lookup-insert_self addr (session_of codec env addr token t) s.clients,
          ground (arith, lookup-insert_self env.channel [] s.channels),
        )

  -- From an address without a session, a join that is accepted but whose reply the socket refuses is
  -- taken back: neither the session nor the channel nor the player's place in the room is left, the
  -- other players stay, and nothing is sent; the ticket is gone.
  pub handle_join_unsent :
      (s : Server) (t : Ticket) (room : MatchRoom) (id : String)
      → lookup addr s.clients ≡ none
      → lookup token s.core.tickets ≡ some t
      → env.consumed_at ≤ t.expires_at_unix
      → lookup t.match_id s.core.matches ≡ some room
      → length room.players < room_max_players
      → env.accepted ≡ false
      → let s' = handle_join codec env addr token s in
        (room' : MatchRoom) × (lookup t.match_id s'.core.matches ≡ some room')
        × (lookup id room'.players ≡ (if t.player_id == id then none else lookup id room.players))
        × (lookup addr s'.clients ≡ none)
        × (lookup env.channel s'.channels ≡ none)
        × (lookup token s'.core.tickets ≡ none)
        × (s'.sent ≡ s.sent)
  unfolding handle_join put_session drop_session remove_player
  handle_join_unsent s t room id c l fresh r lt a =
      let p = entering (lookup t.player_id room.players) t.display_name addr env.channel in
      let players = insert t.player_id p room.players in
      let joined = record room { players = players; last_activity_unix = env.registered_at } in
      let left = record room {
        players = remove t.player_id players;
        last_activity_unix = env.removed_at;
      } in
      rw
        (
          join_run_recording codec env addr token s t room c l fresh r lt
              ∙ unregistered codec env addr token
                  (put_session addr (session_of codec env addr token t)
                    (registered codec env addr token t room s))
                  (session_of codec env addr token t) p.params
                  (lookup-insert_self addr (session_of codec env addr token t) s.clients) a,
          handle_join,
        )
        (
          left,
          ground (
            arith,
            lookup-insert_self t.match_id joined s.core.matches,
            lookup-insert_self t.match_id left (insert t.match_id joined s.core.matches),
          ),
          ground (
            arith,
            lookup-remove t.player_id id players,
            lookup-insert t.player_id id p room.players,
          ),
          lookup-remove_self addr (insert addr (session_of codec env addr token t) s.clients),
          ground (arith, lookup-remove_self env.channel (insert env.channel [] s.channels)),
          ground (arith, lookup-remove_self token s.core.tickets),
          refl,
        )

  -- From an address without a session, a join whose token is unknown, or is that of a ticket past its
  -- expiry, leaves the rooms, the sessions and the channels as they are; the token is not valid
  -- afterwards.
  pub handle_join_unauthorized :
      (s : Server)
      → lookup addr s.clients ≡ none
      → ((t : Ticket) → lookup token s.core.tickets ≡ some t → t.expires_at_unix < env.consumed_at)
      → let s' = handle_join codec env addr token s in
        (s'.core.matches ≡ s.core.matches)
        × (s'.clients ≡ s.clients)
        × (s'.channels ≡ s.channels)
        × (lookup token s'.core.tickets ≡ none)
  unfolding handle_join
  handle_join_unauthorized s c h =
      let (e, f, gone) = join_step-unauthorized codec env addr token s h in
      let s' = (join_step codec env addr token consuming s).1 in
      rw
        (
          join_run_step codec env addr token 6 checking consuming s s
                (join_step-checking codec env addr token s c)
              ∙ join_run_step codec env addr token 5 consuming done s s' e
              ∙ join_run_done codec env addr token 5 s',
          handle_join,
        )
        (
          ap (λ (r : Server). r.core.matches) f,
          ap (λ (r : Server). r.clients) f,
          ap (λ (r : Server). r.channels) f,
          gone,
        )
