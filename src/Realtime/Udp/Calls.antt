-- ===== src/Realtime/Udp/Calls.antt =====
-- The UDP handlers work on `core` only by the calls that hold its lock: udp_connection.rs.
use kotatsu_backend.Prelude.{
  ℕ, ℕ_eq, zero, suc, ◌≡◌, refl, sym, ◌∙◌, ap, String, String_eq, Bool, List, [], ◌∷◌, ◌++◌, arith,
  inl, inr, nat_eq, Option-cases, Bool-cases, Result-cases,
}
use kotatsu_backend.HashMap.{lookup}
use kotatsu_backend.Realtime.Types.{
  CoreState, SocketAddr, ParamKind, ParamDirection, ClientReliable, ServerReliable, join_ok,
}
use kotatsu_backend.Realtime.Error.{to_string}
use kotatsu_backend.Realtime.Ticket.{consume_ticket}
use kotatsu_backend.Realtime.Player.{register_player_udp}
use kotatsu_backend.Realtime.Room.{update_player_params}
use kotatsu_backend.Realtime.Broadcast.{
  pkt_reliable, pkt_unreliable, broadcast_reliable_udp, broadcast_datagram_udp,
  broadcast_datagram_udp_to_all,
}
use kotatsu_backend.Realtime.State.{Server, on_core}
use kotatsu_backend.Realtime.Core.{Call, step, run}
use kotatsu_backend.Realtime.Core.Valid.{IsValid}
use kotatsu_backend.Realtime.Core.Reach.{run-IsValid}
use kotatsu_backend.Realtime.Udp.Socket.{Codec, send_reliable, send_error}
use kotatsu_backend.Realtime.Udp.Join.{
  JoinEnv, JoinTask, checking, join_step, join_run, handle_join, take_session, put_session,
}
use kotatsu_backend.Realtime.Udp.Handlers.{
  Env, handle_param_change, handle_reliable_message, handle_unreliable_message, handle_udp_packet,
  relay,
}

run-append : (core : CoreState) (xs ys : List Call) → run core (xs ++ ys) ≡ run (run core xs) ys
unfolding run
run-append core [] ys = refl
run-append core (x ∷ xs) ys = run-append (step core x) xs ys

module _ {F32 : Type 0} (codec : Codec F32) where
  send_reliable-core :
      (accepted : Bool) (addr : SocketAddr) (msg : ServerReliable) (s : Server)
      → (send_reliable codec accepted addr msg s).1.core ≡ s.core
  unfolding send_reliable
  send_reliable-core accepted addr msg s = elim (Option-cases (codec.write_reliable msg)) [
    | inl e ↦ ground arith
    | inr (json, e) ↦ ground arith
  ]

  send_error-core :
      (accepted : Bool) (addr : SocketAddr) (code message : String) (s : Server)
      → (send_error codec accepted addr code message s).core ≡ s.core
  unfolding send_error
  send_error-core accepted addr code message s =
      send_reliable-core accepted addr (ServerReliable.error code message) s

module _ {F32 : Type 0} (codec : Codec F32) (env : JoinEnv) (addr : SocketAddr)
    (token : String) where
  -- The call that a section of a join makes.
  abbrev join_calls : JoinTask → List Call
  join_calls JoinTask.consuming = Call.consume_ticket token env.consumed_at ∷ []
  join_calls (JoinTask.registering m p name) =
      Call.register_player m p name addr env.channel env.registered_at ∷ []
  join_calls (JoinTask.removing m p) = Call.remove_player m p env.removed_at ∷ []
  join_calls _ = []

  join_step-core :
      (task : JoinTask) (s : Server)
      → (join_step codec env addr token task s).1.core ≡ run s.core (join_calls task)
  unfolding join_step put_session take_session run step
  join_step-core JoinTask.checking s = ground arith
  join_step-core JoinTask.consuming s =
      elim (Result-cases (consume_ticket token env.consumed_at s.core).0) [
        | inl (t, e) ↦ ground arith
        | inr (x, e) ↦ ground (
          arith,
          send_error-core codec env.accepted addr "auth_failed" (to_string x)
              (on_core (consume_ticket token env.consumed_at) s).1,
        )
      ]
  join_step-core (JoinTask.registering m p name) s =
      elim (Result-cases
        (register_player_udp m p name addr env.channel env.registered_at s.core).0) [
          | inl (t, e) ↦ ground arith
          | inr (x, e) ↦ ground (
            arith,
            send_error-core codec env.accepted addr "join_failed" (to_string x)
                (on_core (register_player_udp m p name addr env.channel env.registered_at) s).1,
          )
        ]
  join_step-core (JoinTask.recording m p params) s = refl
  join_step-core (JoinTask.replying m p params) s =
      let msg = join_ok m p params env.now_ms in
      elim (Bool-cases (send_reliable codec env.accepted addr msg s).0) [
        | inl e ↦ ground (arith, send_reliable-core codec env.accepted addr msg s)
        | inr e ↦ ground (arith, send_reliable-core codec env.accepted addr msg s)
      ]
  join_step-core JoinTask.unregistering s = refl
  join_step-core (JoinTask.removing m p) s = refl
  join_step-core JoinTask.done s = refl

  join_run-core :
      (n : ℕ) (task : JoinTask) (s : Server)
      → (calls : List Call) × ((join_run codec env addr token n task s).1.core ≡ run s.core calls)
  unfolding join_run
  join_run-core zero task s = ([], unfold run in refl)
  join_run-core (suc n) task s =
      let (task', s') = join_step codec env addr token task s in
      let (calls, e) = join_run-core n task' s' in
      (
        join_calls task ++ calls,
        e
            ∙ ap (λ core. run core calls) (join_step-core task s)
            ∙ sym (run-append s.core (join_calls task) calls),
      )

module _ (env : Env) (addr : SocketAddr) where
  handle_param_change-core :
      (seq : ℕ) (kind : ParamKind) (dir : ParamDirection) (s : Server)
      → (calls : List Call) × ((handle_param_change env addr seq kind dir s).core
          ≡ run s.core calls)
  unfolding handle_param_change run step broadcast_reliable_udp
  handle_param_change-core seq kind dir s = elim (Option-cases (lookup addr s.clients)) [
    | inl e ↦ ([], ground arith)
    | inr (session, e) ↦
        let m = session.match_id in
        let p = session.player_id in
        (
          Call.update_player_params m p kind dir env.now env.later ∷ [],
          elim (Result-cases (update_player_params m p kind dir env.now env.later s.core).0) [
            | inl (t, e') ↦ ground arith
            | inr (x, e') ↦ ground arith
          ],
        )
  ]

module _ {F32 : Type 0} (codec : Codec F32) (env : Env) (addr : SocketAddr) where
  handle_reliable_message-core :
      (payload : List ℕ) (s : Server)
      → (calls : List Call) × ((handle_reliable_message codec env addr payload s).core
          ≡ run s.core calls)
  unfolding handle_reliable_message handle_join
  handle_reliable_message-core payload s = elim (Option-cases (codec.read_reliable payload)) [
    | inl e ↦ ([], unfold run in ground arith)
    | inr (ClientReliable.join token, e) ↦
        rw (e, handle_reliable_message) (join_run-core codec env.join addr token 7 checking s)
    | inr (ClientReliable.param_change seq kind dir, e) ↦
        rw (e, handle_reliable_message) (handle_param_change-core env addr seq kind dir s)
  ]

  handle_unreliable_message-core :
      (payload : List ℕ) (s : Server)
      → (handle_unreliable_message codec env addr payload s).core ≡ s.core
  unfolding handle_unreliable_message broadcast_datagram_udp broadcast_datagram_udp_to_all
  handle_unreliable_message-core payload s = elim (Option-cases (codec.read_datagram payload)) [
    | inl e ↦ ground arith
    | inr (msg, e) ↦ elim (Option-cases (lookup addr s.clients)) [
      | inl e' ↦ ground arith
      | inr (session, e') ↦
          elim (Option-cases
            (codec.write_datagram (relay codec env addr session.player_id msg).0)) [
              | inl w ↦ ground arith
              | inr (bytes, w) ↦ elim (Bool-cases (relay codec env addr session.player_id msg).1) [
                | inl b ↦ ground arith
                | inr b ↦ ground arith
              ]
            ]
    ]
  ]

  -- Whatever a packet says, what its handling leaves in `core` is what a sequence of the calls that
  -- hold its lock makes of it.
  pub handle_udp_packet-calls :
      (packet : List ℕ) (s : Server)
      → (calls : List Call) × ((handle_udp_packet codec env addr packet s).core ≡ run s.core calls)
  unfolding handle_udp_packet
  handle_udp_packet-calls [] s = ([], unfold run in refl)
  handle_udp_packet-calls (pkt_type ∷ payload) s =
      elim (Bool-cases (nat_eq pkt_type pkt_reliable)) [
        | inl e ↦ rw e (handle_reliable_message-core payload s)
        | inr e ↦ (
          [],
          unfold run in
              elim (Bool-cases (nat_eq pkt_type pkt_unreliable)) [
                | inl e' ↦ ground (arith, handle_unreliable_message-core payload s)
                | inr e' ↦ ground arith
              ],
        )
      ]

  -- Whatever a packet says, its handling keeps the invariant of `core`.
  pub handle_udp_packet-IsValid :
      (packet : List ℕ) (s : Server)
      → IsValid s.core
      → IsValid (handle_udp_packet codec env addr packet s).core
  handle_udp_packet-IsValid packet s v =
      let (calls, e) = handle_udp_packet-calls packet s in rw e (run-IsValid s.core calls v)
