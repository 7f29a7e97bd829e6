-- ===== src/Realtime/Udp/Join/Sections.antt =====
-- The sections of a join that runs alone, one by one.
use kotatsu_backend.Prelude.{
  ℕ, ℕ_eq, Bool, zero, suc, ◌<◌, ◌≤◌, ◌≡◌, refl, String, String_eq, true, false, List, [], ◌∷◌,
  none, some, arith, inl, inr, length, Option-cases,
}
use kotatsu_backend.HashMap.{lookup, contains_key, insert, remove, lookup-remove_self}
use kotatsu_backend.Realtime.Magicnums.{room_max_players}
use kotatsu_backend.Realtime.Types.{
  SocketAddr, PlayerParams, Ticket, MatchRoom, ServerReliable, join_ok,
}
use kotatsu_backend.Realtime.Error.{Error, to_string}
use kotatsu_backend.Realtime.Ticket.{consume_ticket}
use kotatsu_backend.Realtime.Player.{register_player_udp, entering}
use kotatsu_backend.Realtime.Broadcast.{pkt_reliable}
use kotatsu_backend.Realtime.State.{Server, ClientSession}
use kotatsu_backend.Realtime.Udp.Socket.{Codec, send_reliable, send_error, put_packet}
use kotatsu_backend.Realtime.Udp.Join.{
  JoinEnv, JoinTask, checking, consuming, registering, recording, replying, unregistering, removing,
  done, after_take, join_step, join_run, take_session, drop_session,
}

module _ {F32 : Type 0} (codec : Codec F32) (env : JoinEnv) (addr : SocketAddr)
    (token : String) where
  -- One section of the run.
  pub join_run_step :
      (n : ℕ) (task task' : JoinTask) (s s' : Server)
      → join_step codec env addr token task s ≡ (task', s')
      → join_run codec env addr token (suc n) task s ≡ join_run codec env addr token n task' s'
  unfolding join_run
  join_run_step n task task' s s' h = rw (h, join_run) refl

  pub join_step-checking :
      (s : Server)
      → lookup addr s.clients ≡ none
      → join_step codec env addr token checking s ≡ (consuming, s)
  unfolding join_step contains_key
  join_step-checking s h = ground arith

  pub join_step-consuming :
      (s : Server) (t : Ticket)
      → lookup token s.core.tickets ≡ some t
      → env.consumed_at ≤ t.expires_at_unix
      → join_step codec env addr token consuming s ≡ (
        registering t.match_id t.player_id t.display_name,
        record s { core = record s.core { tickets = remove token s.core.tickets } },
      )
  unfolding join_step consume_ticket
  join_step-consuming s t h fresh = ground arith

  pub join_step-registering :
      (s : Server) (m id name : String) (room : MatchRoom)
      → lookup m s.core.matches ≡ some room
      → length room.players < room_max_players
      → let p = entering (lookup id room.players) name addr env.channel in
        join_step codec env addr token (registering m id name) s ≡ (
          recording m id p.params,
          record s {
            core = record s.core {
              matches =
                  insert m
                    (record room {
                      players = insert id p room.players;
                      last_activity_unix = env.registered_at;
                    })
                    s.core.matches;
            };
            channels = insert env.channel [] s.channels;
          },
        )
  unfolding join_step register_player_udp
  join_step-registering s m id name room h lt = ground arith

  pub join_step-replying :
      (s : Server) (m id : String) (params : PlayerParams) (json : List ℕ)
      → env.accepted ≡ true
      → codec.write_reliable (join_ok m id params env.now_ms) ≡ some json
      → join_step codec env addr token (replying m id params) s
        ≡ (done, put_packet addr (pkt_reliable ∷ json) s)
  unfolding join_step send_reliable
  join_step-replying s m id params json a w = ground arith

  pub join_run_done : (n : ℕ) (s : Server) → join_run codec env addr token n done s ≡ (done, s)
  unfolding join_run join_step
  join_run_done zero s = refl
  join_run_done (suc n) s = join_run_done n s

  pub join_step-unsent :
      (s : Server) (m id : String) (params : PlayerParams)
      → env.accepted ≡ false
      → join_step codec env addr token (replying m id params) s ≡ (unregistering, s)
  unfolding join_step send_reliable
  join_step-unsent s m id params a =
      elim (Option-cases (codec.write_reliable (join_ok m id params env.now_ms))) [
        | inl e ↦ ground arith
        | inr (json, e) ↦ ground arith
      ]

  pub join_step-unregistering :
      (s : Server) (session : ClientSession)
      → lookup addr s.clients ≡ some session
      → join_step codec env addr token unregistering s ≡ (
        removing session.match_id session.player_id,
        record s { clients = remove addr s.clients; channels = remove session.rx s.channels },
      )
  unfolding join_step take_session drop_session
  join_step-unregistering s session h =
      rw (h, join_step, take_session, after_take, drop_session) refl

  -- Sending an error changes nothing but what has been sent.
  pub send_error-frame :
      (accepted : Bool) (code message : String) (s : Server)
      → send_error codec accepted addr code message s
        ≡ record s { sent = (send_error codec accepted addr code message s).sent }
  unfolding send_error send_reliable
  send_error-frame accepted code message s =
      elim (Option-cases (codec.write_reliable (ServerReliable.error code message))) [
        | inl e ↦ ground arith
        | inr (json, e) ↦ ground arith
      ]

  -- A ticket that is not there, or is too old, ends the join with an error.
  pub join_step-unauthorized :
      (s : Server)
      → ((t : Ticket) → lookup token s.core.tickets ≡ some t → t.expires_at_unix < env.consumed_at)
      → let s' = (join_step codec env addr token consuming s).1 in
        (join_step codec env addr token consuming s ≡ (done, s'))
        × (s' ≡ record s { core = record s.core { tickets = s'.core.tickets }; sent = s'.sent })
        × (lookup token s'.core.tickets ≡ none)
  unfolding join_step consume_ticket
  join_step-unauthorized s h = elim (Option-cases (lookup token s.core.tickets)) [
    | inl e ↦
        let f = send_error-frame env.accepted "auth_failed" (to_string Error.invalid_token) s in
        (ground arith, ground (arith, f), ground (arith, f))
    | inr (t, e) ↦
        let late = h t e in
        let f =
          send_error-frame env.accepted "auth_failed" (to_string Error.token_expired)
            (record s { core = record s.core { tickets = remove token s.core.tickets } }) in
        (
          ground arith,
          ground (arith, f),
          ground (arith, f, lookup-remove_self token s.core.tickets),
        )
  ]
