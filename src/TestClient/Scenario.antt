-- ===== src/TestClient/Scenario.antt =====
-- The scenario of the test client end to end: what the server does with the two changes of the
-- triggering client, and what that client makes of the two messages that it gets.
use kotatsu_backend.Prelude.{
  ℕ, ℕ_eq, ◌+◌, ◌≡◌, ◌≤◌, ◌<◌, ◌^◌, refl, ap, ◌∙◌, String, String_eq, true, List, [], ◌∷◌, ◌++◌,
  map, filter, some, arith, nat_eq, ==_refl,
}
use mathlib.Core.List.{append_assoc}
use kotatsu_backend.HashMap.{lookup, lookup-insert_self}
use kotatsu_backend.Realtime.Types
use kotatsu_backend.Realtime.Types.{
  PlayerHandle, MatchRoom, ParamKind, ParamDirection, SocketAddr, ChannelId, default_params,
  cooldown_active,
}
use kotatsu_backend.Realtime.Error.{Error, to_string}
use kotatsu_backend.Realtime.State.{Server, ClientSession, Channels, send, send_all}
use kotatsu_backend.Realtime.Broadcast.{senders, broadcast_reliable_udp}
use kotatsu_backend.Realtime.Broadcast.Delivery.{lookup-send_all}
use kotatsu_backend.Realtime.Udp.Handlers.{Env, handle_param_change}
use kotatsu_backend.TestClient.Messages.{ServerReliable}
use kotatsu_backend.TestClient.Stats.{
  ClientStats, StatsMap, on_entry, handle_message, message_change, record_applied,
  record_cooldown_error,
}
use kotatsu_backend.TestClient.Run.{handle_all}
use kotatsu_backend.TestClient.Counts.{entry_of, entry_of-on_entry}
use kotatsu_backend.TestClient.Passed.{IsThrottled}
use kotatsu_backend.TestClient.Refusals.{is_cooldown_refusal_lem}
use kotatsu_backend.TestClient.Changes.{
  raised, changed, changed_core, update_accepted, update_refused, copies_lem, senders-changed,
}

-- A message of the server as the client's types read it: a field that they do not have is skipped.
abbrev pub seen : Types.ServerReliable → ServerReliable
seen (Types.join_ok match_id player_id params now_ms) =
    ServerReliable.join_ok match_id player_id params now_ms
seen (Types.match_started match_id started_at players now_ms) =
    ServerReliable.match_started match_id started_at now_ms
seen (Types.param_applied from_player_id seq params next now_ms) =
    ServerReliable.param_applied from_player_id seq params next now_ms
seen (Types.error code message) = ServerReliable.error code message

module _ (env : Env) (addr : SocketAddr) (seq : ℕ) (s : Server) (session : ClientSession)
    (room : MatchRoom) (p : PlayerHandle) where
  change_accepted :
      lookup addr s.clients ≡ some session
      → lookup session.match_id s.core.matches ≡ some room
      → lookup session.player_id room.players ≡ some p
      → p.params ≡ default_params
      → p.next_param_change_at_unix ≤ env.now
      → env.now + 7 < 2 ^ 64
      → handle_param_change env addr seq ParamKind.gravity ParamDirection.increase s
        ≡ broadcast_reliable_udp session.match_id
            (Types.param_applied session.player_id seq raised (env.now + 7) env.now_ms)
            (record s { core = changed_core session p (env.now + 7) env.later room s.core })
  unfolding handle_param_change
  change_accepted c r l d cool fits =
      let updated = update_accepted session room p env.now env.later s.core r l d cool fits in
      ground arith

  change_refused :
      lookup addr s.clients ≡ some session
      → lookup session.match_id s.core.matches ≡ some room
      → lookup session.player_id room.players ≡ some p
      → env.now < p.next_param_change_at_unix
      → handle_param_change env addr seq ParamKind.gravity ParamDirection.increase s ≡ record s {
        channels =
            send session.tx
              (Types.error "param_update_failed"
                (to_string (Error.param_update (cooldown_active p.next_param_change_at_unix))))
              s.channels;
      }
  unfolding handle_param_change
  change_refused c r l hot =
      let refused = update_refused session room p env.now env.later s.core r l hot in ground arith

-- What stands in a channel after a broadcast to a room of which it is one player's, and after a
-- message to it alone.
broadcast-queue :
    (match_id : String) (msg : Types.ServerReliable) (tx : ChannelId)
    (queue : List Types.ServerReliable) (s : Server)
    → lookup tx s.channels ≡ some queue
    → filter (λ other. nat_eq other tx) (senders match_id s) ≡ tx ∷ []
    → lookup tx (broadcast_reliable_udp match_id msg s).channels ≡ some (queue ++ msg ∷ [])
unfolding broadcast_reliable_udp
broadcast-queue match_id msg tx queue s q own =
    lookup-send_all (senders match_id s) tx msg s.channels
    ∙ rw (q, copies_lem tx msg (senders match_id s), own) refl

send-queue :
    (tx : ChannelId) (msg : Types.ServerReliable) (queue : List Types.ServerReliable)
    (channels : Channels)
    → lookup tx channels ≡ some queue
    → lookup tx (send tx msg channels) ≡ some (queue ++ msg ∷ [])
unfolding send_all
send-queue tx msg queue channels q =
    lookup-send_all (tx ∷ []) tx msg channels ∙ rw (q, ==_refl tx) refl

-- The client that has had both messages.
throttled :
    (id : String) (next now_ms : ℕ) (stats : StatsMap)
    → 0 < next
    → let applied = ServerReliable.param_applied id 1 raised next now_ms in
      let refusal =
        ServerReliable.error "param_update_failed"
          (to_string (Error.param_update (cooldown_active next))) in
      IsThrottled (entry_of id (handle_all true id (applied ∷ refusal ∷ []) stats))
unfolding handle_all handle_message message_change record_applied record_cooldown_error
throttled id next now_ms stats positive =
    let own = ==_refl id in
    let refused =
      (is_cooldown_refusal_lem (Error.param_update (cooldown_active next))).1 (next, refl) in
    let first = record_applied id id raised next in
    let both : ClientStats = record_cooldown_error (first (entry_of id stats)) in
    let entry : entry_of id (on_entry id record_cooldown_error (on_entry id first stats)) ≡ both =
      entry_of-on_entry id record_cooldown_error (on_entry id first stats)
      ∙ ap record_cooldown_error (entry_of-on_entry id first stats) in
    let seen_by_client : IsThrottled both = ground (arith, own) in
    rw (refused, handle_message, message_change) (rw entry seen_by_client)

-- A player with the default levels and no cooldown asks for two increases of the gravity, the second within seven
-- seconds of the first. Then the server puts two messages into the player's channel, the change and
-- its refusal, the room shows the raised gravity with its cooldown, and a client that handles the
-- two messages has seen what the test client asks of it: the change to 3/2/2, its cooldown, and the
-- refusal.
pub handle_param_change-IsThrottled :
    (first second : Env) (addr : SocketAddr) (s : Server) (session : ClientSession)
    (room : MatchRoom) (p : PlayerHandle) (queue : List Types.ServerReliable) (stats : StatsMap)
    → lookup addr s.clients ≡ some session
    → lookup session.match_id s.core.matches ≡ some room
    → lookup session.player_id room.players ≡ some p
    → p.params ≡ default_params
    → p.next_param_change_at_unix ≤ first.now
    → first.now + 7 < 2 ^ 64
    → second.now < first.now + 7
    → lookup session.tx s.channels ≡ some queue
    → filter (λ tx. nat_eq tx session.tx) (senders session.match_id s) ≡ session.tx ∷ []
    → let next = first.now + 7 in
      let increase = λ (env : Env) (seq : ℕ) (state : Server).
        handle_param_change env addr seq ParamKind.gravity ParamDirection.increase state in
      let s' = increase second 2 (increase first 1 s) in
      let applied = Types.param_applied session.player_id 1 raised next first.now_ms in
      let refusal =
        Types.error "param_update_failed" (to_string (Error.param_update (cooldown_active next))) in
      (lookup session.tx s'.channels ≡ some (queue ++ applied ∷ refusal ∷ []))
      × (lookup session.match_id s'.core.matches
          ≡ some (changed session.player_id p next first.later room))
      × IsThrottled (
          entry_of session.player_id
            (handle_all true session.player_id (map seen (applied ∷ refusal ∷ [])) stats))
unfolding broadcast_reliable_udp
handle_param_change-IsThrottled first second addr s session room p queue stats c r l d cool fits
      soon q own =
    let next = first.now + 7 in
    let p' = record p { params = raised; next_param_change_at_unix = next } in
    let room' = changed session.player_id p next first.later room in
    let applied = Types.param_applied session.player_id 1 raised next first.now_ms in
    let refusal =
      Types.error "param_update_failed" (to_string (Error.param_update (cooldown_active next))) in
    let core' = changed_core session p next first.later room s.core in
    let after = broadcast_reliable_udp session.match_id applied (record s { core = core' }) in
    let stored = lookup-insert_self session.match_id room' s.core.matches in
    let once = change_accepted first addr 1 s session room p c r l d cool fits in
    let twice =
      change_refused second addr 2 after session room' p' c stored
        (lookup-insert_self session.player_id p' room.players) soon in
    let same = senders-changed session room p next first.later s r l in
    let waits =
      broadcast-queue session.match_id applied session.tx queue (record s { core = core' }) q
        (rw same own) in
    rw (once, twice)
      (
        send-queue session.tx refusal (queue ++ applied ∷ []) after.channels waits
            ∙ ap some (append_assoc queue (applied ∷ []) (refusal ∷ [])),
        stored,
        throttled session.player_id next first.now_ms stats (omega arith),
      )
