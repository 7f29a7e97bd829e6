-- ===== src/Realtime/Udp/Linked/Entry.antt =====
-- The sections of a join up to the session: they leave every player with a session, or are about
-- to record it.
use kotatsu_backend.Prelude.{
  ℕ_eq, ◌≡◌, ◌∙◌, ap, sym, subst, refl, String, String_eq, [], none, some, arith, inl, inr,
  Option-cases, Bool-cases, Result-cases, ◌==◌, eq_of_==,
}
use kotatsu_backend.HashMap.{lookup, insert, contains_key, lookup-insert, lookup-insert_self}
use kotatsu_backend.Realtime.Types.{SocketAddr, PlayerParams, udp}
use kotatsu_backend.Realtime.Error.{to_string}
use kotatsu_backend.Realtime.Ticket.{consume_ticket}
use kotatsu_backend.Realtime.Player.{register_player_udp}
use kotatsu_backend.Realtime.State.{Server, on_core}
use kotatsu_backend.Realtime.Core.Links.Entering.{
  consume_ticket-matches, register_player_udp-link, register_player_udp-refused,
}
use kotatsu_backend.Realtime.Udp.Socket.{Codec, send_error}
use kotatsu_backend.Realtime.Udp.Join.{
  JoinEnv, JoinTask, checking, consuming, registering, recording, done, join_step, put_session,
}
use kotatsu_backend.Realtime.Udp.Join.Sections.{send_error-frame}
use kotatsu_backend.Realtime.Udp.Linked.{session_of, IsLinkedBut, IsLinked, same-IsLinked}

module _ {F32 : Type 0} (codec : Codec F32) (env : JoinEnv) (addr : SocketAddr)
    (token : String) where
  -- Where a join stands with the links.
  abbrev pub OnTrack : JoinTask → Server → Type 0
  OnTrack JoinTask.checking s = IsLinked s
  OnTrack JoinTask.consuming s = IsLinked s × (lookup addr s.clients ≡ none)
  OnTrack (JoinTask.registering m p name) s = IsLinked s × (lookup addr s.clients ≡ none)
  OnTrack (JoinTask.recording m p params) s =
      IsLinkedBut (λ m' p' a tx. (m' ≡ m) × (p' ≡ p) × (a ≡ addr) × (tx ≡ env.channel)) s
      × (lookup addr s.clients ≡ none)
  OnTrack (JoinTask.replying m p params) s = IsLinked s
  OnTrack JoinTask.unregistering s = IsLinked s
  OnTrack (JoinTask.removing m p) s = IsLinkedBut (λ m' p' a tx. (m' ≡ m) × (p' ≡ p)) s
  OnTrack JoinTask.done s = IsLinked s

  pub to_OnTrack : (r r' : JoinTask × Server) → r ≡ r' → OnTrack r'.0 r'.1 → OnTrack r.0 r.1
  to_OnTrack r r' e h = subst (λ x. OnTrack x.0 x.1) (sym e) h

  pub send_error-IsLinked :
      (code message : String) (s : Server)
      → IsLinked s
      → IsLinked (send_error codec env.accepted addr code message s)
  send_error-IsLinked code message s h =
      let frame = send_error-frame codec env addr token env.accepted code message s in
      same-IsLinked s (send_error codec env.accepted addr code message s)
        (ap (λ x. x.clients) frame) (ap (λ x. x.core.matches) frame) h

  pub checking-OnTrack :
      (s : Server)
      → IsLinked s
      → let (task', s') = join_step codec env addr token checking s in OnTrack task' s'
  unfolding join_step contains_key
  checking-OnTrack s h = elim (Option-cases (lookup addr s.clients)) [
    | inl e ↦ rw (e, join_step, contains_key) (h, e)
    | inr (session, e) ↦ rw (e, join_step, contains_key) h
  ]

  pub consuming-OnTrack :
      (s : Server)
      → IsLinked s
      → lookup addr s.clients ≡ none
      → let (task', s') = join_step codec env addr token consuming s in OnTrack task' s'
  unfolding join_step
  consuming-OnTrack s h free =
      let s1 = (on_core (consume_ticket token env.consumed_at) s).1 in
      let h1 = same-IsLinked s s1 refl (consume_ticket-matches token env.consumed_at s.core) h in
      elim (Result-cases (consume_ticket token env.consumed_at s.core).0) [
        | inl (t, e) ↦
            to_OnTrack (join_step codec env addr token consuming s) (registering t.0 t.1 t.2, s1)
              (rw (e, join_step) refl) (h1, free)
        | inr (x, e) ↦
            to_OnTrack (join_step codec env addr token consuming s)
              (done, send_error codec env.accepted addr "auth_failed" (to_string x) s1)
              (rw (e, join_step) refl) (send_error-IsLinked "auth_failed" (to_string x) s1 h1)
      ]

  pub registering-OnTrack :
      (m p name : String) (s : Server)
      → IsLinked s
      → lookup addr s.clients ≡ none
      → let (task', s') = join_step codec env addr token (registering m p name) s in
        OnTrack task' s'
  unfolding join_step
  registering-OnTrack m p name s h free =
      let register = register_player_udp m p name addr env.channel env.registered_at in
      let s1 = (on_core register s).1 in
      elim (Result-cases (register s.core).0) [
        | inl (params, e) ↦
            to_OnTrack (join_step codec env addr token (registering m p name) s)
              (recording m p params, record s1 { channels = insert env.channel [] s1.channels })
              (rw (e, join_step) refl)
              (
                (λ m' p' a tx l.
                    elim (register_player_udp-link m p name addr env.channel env.registered_at
                      s.core m' p') [
                        | inl same ↦ inl (h m' p' a tx (sym same ∙ l))
                        | inr (here, here', at) ↦
                            let q : some (some (udp addr), env.channel) ≡ some (some (udp a), tx) =
                              sym at ∙ l in
                            inr (here, here', ground (arith, q), ground (arith, q))
                      ]),
                free,
              )
        | inr (x, e) ↦
            let kept =
              register_player_udp-refused m p name addr env.channel env.registered_at s.core x e in
            to_OnTrack (join_step codec env addr token (registering m p name) s)
              (done, send_error codec env.accepted addr "join_failed" (to_string x) s1)
              (rw (e, join_step) refl)
              (send_error-IsLinked "join_failed" (to_string x) s1
                (same-IsLinked s s1 refl (ap (λ c. c.matches) kept) h))
      ]

  pub recording-OnTrack :
      (m p : String) (params : PlayerParams) (s : Server)
      → OnTrack (recording m p params) s
      → let (task', s') = join_step codec env addr token (recording m p params) s in
        OnTrack task' s'
  unfolding join_step put_session
  recording-OnTrack m p params s (h, free) m' p' a tx l =
      let at = lookup-insert addr a (session_of m p addr env.channel) s.clients in
      elim (h m' p' a tx l) [
        | inl there ↦ elim (Bool-cases (addr == a)) [
          | inl here ↦
              let f : lookup a s.clients ≡ none =
                subst (λ x. lookup x s.clients ≡ none) (eq_of_== addr a here) free in
              absurd (ground (arith, f, there))
          | inr away ↦ rw (at, away) there
        ]
        | inr (q, q', r, r') ↦
            rw (q, q', r, r') (lookup-insert_self addr (session_of m p addr env.channel) s.clients)
      ]
