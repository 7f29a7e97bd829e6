-- ===== src/Realtime/Udp/Join/Ends.antt =====
-- The task of `handle_join` ends, whatever runs between its sections.
use kotatsu_backend.Prelude.{
  ap, sym, ◌∙◌, ℕ, ℕ_eq, String_eq, zero, suc, ◌-◌, ◌≤◌, ◌≡◌, refl, String, arith, inl, inr,
  Option-cases, Bool-cases, Result-cases,
}
use kotatsu_backend.HashMap.{contains_key}
use kotatsu_backend.Realtime.Types.{SocketAddr, join_ok}
use kotatsu_backend.Realtime.Ticket.{consume_ticket}
use kotatsu_backend.Realtime.Player.{register_player_udp}
use kotatsu_backend.Realtime.State.{Server}
use kotatsu_backend.Realtime.Udp.Socket.{Codec, send_reliable}
use kotatsu_backend.Realtime.Udp.Join.{
  JoinEnv, JoinTask, checking, done, join_step, join_run, take_session,
}

module _ {F32 : Type 0} (codec : Codec F32) (env : JoinEnv) (addr : SocketAddr)
    (token : String) where
  -- The task runs among others, which make of the state what they like after each of its sections.
  unfoldable pub join_among : (ℕ → Server → Server) → ℕ → JoinTask → Server → JoinTask × Server
  join_among others zero task s = (task, s)
  join_among others (suc n) task s =
      let (task', s') = join_step codec env addr token task s in
      join_among others n task' (others n s')

-- How many sections are left at most.
abbrev left : JoinTask → ℕ
left JoinTask.checking = 7
left JoinTask.consuming = 6
left (JoinTask.registering _ _ _) = 5
left (JoinTask.recording _ _ _) = 4
left (JoinTask.replying _ _ _) = 3
left JoinTask.unregistering = 2
left (JoinTask.removing _ _) = 1
left JoinTask.done = 0

module _ {F32 : Type 0} (codec : Codec F32) (env : JoinEnv) (addr : SocketAddr)
    (token : String) where
  left-join_step :
      (task : JoinTask) (s : Server)
      → left (join_step codec env addr token task s).0 ≤ left task - 1
  unfolding join_step
  left-join_step JoinTask.checking s = elim (Bool-cases (contains_key addr s.clients)) [
    | inl e ↦ ground arith
    | inr e ↦ ground arith
  ]
  left-join_step JoinTask.consuming s =
      elim (Result-cases (consume_ticket token env.consumed_at s.core).0) [
        | inl (t, e) ↦ ground arith
        | inr (x, e) ↦ ground arith
      ]
  left-join_step (JoinTask.registering m p name) s =
      elim (Result-cases
        (register_player_udp m p name addr env.channel env.registered_at s.core).0) [
          | inl (t, e) ↦ ground arith
          | inr (x, e) ↦ ground arith
        ]
  left-join_step (JoinTask.recording m p params) s = ground arith
  left-join_step (JoinTask.replying m p params) s =
      elim (Bool-cases
        (send_reliable codec env.accepted addr (join_ok m p params env.now_ms) s).0) [
          | inl e ↦ ground arith
          | inr e ↦ ground arith
        ]
  left-join_step JoinTask.unregistering s = elim (Option-cases (take_session addr s).0) [
    | inl e ↦ ground arith
    | inr (session, e) ↦ ground arith
  ]
  left-join_step (JoinTask.removing m p) s = ground arith
  left-join_step JoinTask.done s = ground arith

  left-join_among :
      (others : ℕ → Server → Server) (n : ℕ) (task : JoinTask) (s : Server)
      → left (join_among codec env addr token others n task s).0 ≤ left task - n
  unfolding join_among
  left-join_among others zero task s = omega arith
  left-join_among others (suc n) task s =
      let (task', s') = join_step codec env addr token task s in
      omega (arith, left-join_step task s, left-join_among others n task' (others n s'))

  left-eq_done : (task : JoinTask) → left task ≤ 0 → task ≡ done
  left-eq_done JoinTask.done h = refl
  left-eq_done JoinTask.checking h = absurd (omega arith)
  left-eq_done JoinTask.consuming h = absurd (omega arith)
  left-eq_done (JoinTask.registering _ _ _) h = absurd (omega arith)
  left-eq_done (JoinTask.recording _ _ _) h = absurd (omega arith)
  left-eq_done (JoinTask.replying _ _ _) h = absurd (omega arith)
  left-eq_done JoinTask.unregistering h = absurd (omega arith)
  left-eq_done (JoinTask.removing _ _) h = absurd (omega arith)

  -- A join ends within seven sections, whatever the other tasks do to the state between them.
  pub join_among-done :
      (others : ℕ → Server → Server) (s : Server)
      → (join_among codec env addr token others 7 checking s).0 ≡ done
  join_among-done others s =
      left-eq_done (join_among codec env addr token others 7 checking s).0
        (left-join_among others 7 checking s)

  join_among-join_run :
      (n : ℕ) (task : JoinTask) (s : Server)
      → join_among codec env addr token (λ _ s'. s') n task s
        ≡ join_run codec env addr token n task s
  unfolding join_among join_run
  join_among-join_run zero task s = refl
  join_among-join_run (suc n) task s =
      let (task', s') = join_step codec env addr token task s in join_among-join_run n task' s'

  -- The seven sections of `handle_join` are enough.
  pub join_run-done : (s : Server) → (join_run codec env addr token 7 checking s).0 ≡ done
  join_run-done s =
      ap (λ r. r.0) (sym (join_among-join_run 7 checking s)) ∙ join_among-done (λ _ s'. s') s
