-- ===== src/Realtime/Udp/Linked/Joins.antt =====
-- The sections of a join from its reply to its end, and the whole join: every player keeps a
-- session.
use kotatsu_backend.Prelude.{
  ℕ, ℕ_eq, zero, suc, ◌≡◌, ◌⊎◌, ◌∙◌, ap, sym, subst, refl, String, String_eq, none, some, arith,
  inl, inr, Option-cases, Bool-cases, ◌==◌, eq_of_==,
}
use kotatsu_backend.HashMap.{lookup, remove, lookup-remove}
use kotatsu_backend.Realtime.Types.{SocketAddr, ChannelId, PlayerParams, join_ok, udp}
use kotatsu_backend.Realtime.Player.{remove_player}
use kotatsu_backend.Realtime.State.{Server}
use kotatsu_backend.Realtime.Core.Links.{link_at}
use kotatsu_backend.Realtime.Core.Links.Calls.{remove_player-KeepsLinks}
use kotatsu_backend.Realtime.Core.Links.Entering.{remove_player-link}
use kotatsu_backend.Realtime.Udp.Socket.{Codec, send_reliable}
use kotatsu_backend.Realtime.Udp.Join.{
  JoinEnv, JoinTask, checking, replying, unregistering, removing, done, join_step, join_run,
  handle_join, take_session, after_take, drop_session,
}
use kotatsu_backend.Realtime.Udp.Join.Ends.{join_run-done}
use kotatsu_backend.Realtime.Udp.Join.Sections.{join_step-unregistering}
use kotatsu_backend.Realtime.Udp.Linked.{session_of, IsLinked, same-IsLinked, send_reliable-frame}
use kotatsu_backend.Realtime.Udp.Linked.Entry.{
  OnTrack, to_OnTrack, checking-OnTrack, consuming-OnTrack, registering-OnTrack, recording-OnTrack,
}

module _ {F32 : Type 0} (codec : Codec F32) (env : JoinEnv) (addr : SocketAddr)
    (token : String) where
  replying-OnTrack :
      (m p : String) (params : PlayerParams) (s : Server)
      → IsLinked s
      → let (task', s') = join_step codec env addr token (replying m p params) s in
        OnTrack codec env addr token task' s'
  unfolding join_step
  replying-OnTrack m p params s h =
      let msg = join_ok m p params env.now_ms in
      let (c, k) = send_reliable-frame codec env.accepted addr msg s in
      let s1 = (send_reliable codec env.accepted addr msg s).1 in
      let h1 = same-IsLinked s s1 c k h in
      elim (Bool-cases (send_reliable codec env.accepted addr msg s).0) [
        | inl e ↦
            to_OnTrack codec env addr token (join_step codec env addr token (replying m p params) s)
              (done, s1) (rw (e, join_step) refl) h1
        | inr e ↦
            to_OnTrack codec env addr token (join_step codec env addr token (replying m p params) s)
              (unregistering, s1) (rw (e, join_step) refl) h1
      ]

  removed-IsLinkedBut :
      (s : Server) (Q : String → String → SocketAddr → ChannelId → Type 0)
      → IsLinked s
      → ((m p : String) (tx : ChannelId)
          → lookup addr s.clients ≡ some (session_of m p addr tx)
          → Q m p addr tx)
      → (m p : String) (a : SocketAddr) (tx : ChannelId)
      → link_at m p s.core.matches ≡ some (some (udp a), tx)
      → (lookup a (remove addr s.clients) ≡ some (session_of m p a tx)) ⊎ Q m p a tx
  removed-IsLinkedBut s Q h named m p a tx l =
      let at = lookup-remove addr a s.clients in
      let there = h m p a tx l in
      elim (Bool-cases (addr == a)) [
        | inl here ↦
            let q = eq_of_== addr a here in
            inr (
              subst (λ x. Q m p x tx) q
                (named m p tx
                  (subst (λ x. lookup x s.clients ≡ some (session_of m p x tx)) (sym q) there)))
        | inr away ↦ inl (rw (at, away) there)
      ]

  unregistering-OnTrack :
      (s : Server)
      → IsLinked s
      → let (task', s') = join_step codec env addr token unregistering s in
        OnTrack codec env addr token task' s'
  unfolding join_step take_session drop_session
  unregistering-OnTrack s h = elim (Option-cases (lookup addr s.clients)) [
    | inl e ↦
        to_OnTrack codec env addr token (join_step codec env addr token unregistering s)
          (done, record s { clients = remove addr s.clients })
          (rw (e, join_step, take_session, after_take, drop_session) refl)
          (λ m p a tx l.
            elim (removed-IsLinkedBut s (λ _ _ _ _. ⊥) h
              (λ m' p' tx' there. ground (arith, e, there)) m p a tx l) [
                | inl there ↦ there
                | inr q ↦ absurd q
              ])
    | inr (session, e) ↦
        to_OnTrack codec env addr token (join_step codec env addr token unregistering s)
          (
            removing session.match_id session.player_id,
            record s { clients = remove addr s.clients; channels = remove session.rx s.channels },
          )
          (join_step-unregistering codec env addr token s session e)
          (removed-IsLinkedBut s (λ m' p' a tx. (m' ≡ session.match_id) × (p' ≡ session.player_id))
            h
            (λ m' p' tx' there.
              let q : some (session_of m' p' addr tx') ≡ some session = sym there ∙ e in
              (ground (arith, q), ground (arith, q))))
  ]

  removing-OnTrack :
      (m p : String) (s : Server)
      → OnTrack codec env addr token (removing m p) s
      → let (task', s') = join_step codec env addr token (removing m p) s in
        OnTrack codec env addr token task' s'
  unfolding join_step
  removing-OnTrack m p s h m' p' a tx l =
      let matches = (remove_player m p env.removed_at s.core).matches in
      let gone = remove_player-link m p env.removed_at s.core in
      elim (remove_player-KeepsLinks m p env.removed_at s.core m' p') [
        | inr q ↦ absurd (ground (arith, q, l))
        | inl same ↦ elim (h m' p' a tx (sym same ∙ l)) [
          | inl there ↦ there
          | inr (q, q') ↦
              let moved = ap (λ x. link_at x p' matches) q ∙ ap (λ x. link_at m x matches) q' in
              let l' : none ≡ some (some (udp a), tx) = sym (moved ∙ gone) ∙ l in
              absurd (ground (arith, l'))
        ]
      ]

  join_step-OnTrack :
      (task : JoinTask) (s : Server)
      → OnTrack codec env addr token task s
      → let (task', s') = join_step codec env addr token task s in
        OnTrack codec env addr token task' s'
  join_step-OnTrack JoinTask.checking s h = checking-OnTrack codec env addr token s h
  join_step-OnTrack JoinTask.consuming s (h, free) = consuming-OnTrack codec env addr token s h free
  join_step-OnTrack (JoinTask.registering m p name) s (h, free) =
      registering-OnTrack codec env addr token m p name s h free
  join_step-OnTrack (JoinTask.recording m p params) s h =
      recording-OnTrack codec env addr token m p params s h
  join_step-OnTrack (JoinTask.replying m p params) s h = replying-OnTrack m p params s h
  join_step-OnTrack JoinTask.unregistering s h = unregistering-OnTrack s h
  join_step-OnTrack (JoinTask.removing m p) s h = removing-OnTrack m p s h
  join_step-OnTrack JoinTask.done s h = unfold join_step in h

  join_run-OnTrack :
      (n : ℕ) (task : JoinTask) (s : Server)
      → OnTrack codec env addr token task s
      → let (task', s') = join_run codec env addr token n task s in
        OnTrack codec env addr token task' s'
  unfolding join_run
  join_run-OnTrack zero task s h = h
  join_run-OnTrack (suc n) task s h =
      let (task', s') = join_step codec env addr token task s in
      join_run-OnTrack n task' s' (join_step-OnTrack task s h)

  done-IsLinked :
      (r : JoinTask × Server) → r.0 ≡ done → OnTrack codec env addr token r.0 r.1 → IsLinked r.1
  done-IsLinked r e h = subst (λ task. OnTrack codec env addr token task r.1) e h

  -- A join that runs alone leaves every player with the session that they had or have got.
  pub handle_join-IsLinked :
      (s : Server) → IsLinked s → IsLinked (handle_join codec env addr token s)
  unfolding handle_join
  handle_join-IsLinked s h =
      done-IsLinked (join_run codec env addr token 7 checking s)
        (join_run-done codec env addr token s) (join_run-OnTrack 7 checking s h)
