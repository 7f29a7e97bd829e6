-- ===== src/Realtime/Udp/Flush.antt =====
-- What a round of the outgoing task sends: `run_udp_server` of udp_connection.rs.
use kotatsu_backend.Prelude.{
  ℕ_eq, ◌≡◌, ◌≢◌, refl, sym, ◌∙◌, ap, List, [], ◌∷◌, ◌++◌, Option, arith, inl, inr, filter_map,
  Option-cases, All,
}
use mathlib.Core.List.{append_assoc, append-nil}
use kotatsu_backend.HashMap.{lookup, lookup-insert_self, lookup-insert_ne}
use kotatsu_backend.Realtime.Types.{ChannelId, ServerReliable}
use kotatsu_backend.Realtime.State.{Server, ClientSession, Packet, ClientRegistry, Channels}
use kotatsu_backend.Realtime.Layout.{unwrap_or}
use kotatsu_backend.Realtime.Udp.Socket.{Codec}
use kotatsu_backend.Realtime.Udp.Outgoing.{
  reliable_packet, flush_session, flush_sessions, flush_outgoing,
}

-- The sessions' channels are distinct.
abbrev pub HasOwnChannels : ClientRegistry → Type 0
HasOwnChannels [] = Unit {0}
HasOwnChannels (e ∷ rest) = All (λ d. d.1.rx ≢ e.1.rx) rest × HasOwnChannels rest

-- What waits for a session.
abbrev pub waiting : ClientSession → Channels → List ServerReliable
waiting session channels = unwrap_or (lookup session.rx channels) []

module _ {F32 : Type 0} (codec : Codec F32) where
  -- The packets for what waits for each session, session by session.
  abbrev pub waiting_packets : ClientRegistry → Channels → List Packet
  waiting_packets [] channels = []
  waiting_packets ((addr, session) ∷ rest) channels =
      filter_map (reliable_packet codec session.addr) (waiting session channels)
      ++ waiting_packets rest channels

  flush_session-sent :
      (session : ClientSession) (s : Server)
      → (flush_session codec session s).sent
        ≡ s.sent ++ filter_map (reliable_packet codec session.addr) (waiting session s.channels)
  unfolding flush_session
  flush_session-sent session s = elim (Option-cases (lookup session.rx s.channels)) [
    | inl e ↦ ground (arith, append-nil s.sent)
    | inr (queue, e) ↦ ground arith
  ]

  -- The queue of the session is emptied, and no other changes.
  flush_session-waiting :
      (session : ClientSession) (s : Server)
      → waiting session (flush_session codec session s).channels ≡ []
  unfolding flush_session
  flush_session-waiting session s = elim (Option-cases (lookup session.rx s.channels)) [
    | inl e ↦ ground arith
    | inr (queue, e) ↦
        ground (arith, lookup-insert_self {V = List ServerReliable} session.rx [] s.channels)
  ]

  flush_session-lookup :
      (session : ClientSession) (ch : ChannelId) (s : Server)
      → ch ≢ session.rx
      → lookup ch (flush_session codec session s).channels ≡ lookup ch s.channels
  unfolding flush_session
  flush_session-lookup session ch s n = elim (Option-cases (lookup session.rx s.channels)) [
    | inl e ↦ ground arith
    | inr (queue, e) ↦ ground (
      arith,
      lookup-insert_ne {V = List ServerReliable} session.rx ch [] s.channels (λ q. n (sym q)),
    )
  ]

  -- What a session that is none of the flushed has waiting still waits.
  flush_sessions-lookup :
      (sessions : ClientRegistry) (ch : ChannelId) (s : Server)
      → All (λ d. d.1.rx ≢ ch) sessions
      → lookup ch (flush_sessions codec sessions s).channels ≡ lookup ch s.channels
  unfolding flush_sessions
  flush_sessions-lookup [] ch s h = refl
  flush_sessions-lookup ((a, session) ∷ rest) ch s h =
      flush_sessions-lookup rest ch (flush_session codec session s) h.1
      ∙ flush_session-lookup session ch s (λ q. h.0 (sym q))

  waiting_packets-flush_session :
      (session : ClientSession) (rest : ClientRegistry) (s : Server)
      → All (λ d. d.1.rx ≢ session.rx) rest
      → waiting_packets rest (flush_session codec session s).channels
        ≡ waiting_packets rest s.channels
  waiting_packets-flush_session session [] s h = refl
  waiting_packets-flush_session session ((a, d) ∷ rest) s h =
      let after = flush_session codec session s in
      ap
        (λ (o : Option (List ServerReliable)).
          filter_map (reliable_packet codec d.addr) (unwrap_or o [])
          ++ waiting_packets rest after.channels)
        (flush_session-lookup session d.rx s h.0)
      ∙ ap (λ ps. filter_map (reliable_packet codec d.addr) (waiting d s.channels) ++ ps)
          (waiting_packets-flush_session session rest s h.1)

  flush_sessions-sent :
      (sessions : ClientRegistry) (s : Server)
      → HasOwnChannels sessions
      → (flush_sessions codec sessions s).sent ≡ s.sent ++ waiting_packets sessions s.channels
  unfolding flush_sessions
  flush_sessions-sent [] s h = sym (append-nil s.sent)
  flush_sessions-sent ((a, session) ∷ rest) s h =
      let ps = filter_map (reliable_packet codec session.addr) (waiting session s.channels) in
      flush_sessions-sent rest (flush_session codec session s) h.1
      ∙ ap (λ qs. (flush_session codec session s).sent ++ qs)
          (waiting_packets-flush_session session rest s h.0)
      ∙ ap (λ ss. ss ++ waiting_packets rest s.channels) (flush_session-sent session s)
      ∙ append_assoc s.sent ps (waiting_packets rest s.channels)

  flush_sessions-waiting :
      (sessions : ClientRegistry) (s : Server)
      → HasOwnChannels sessions
      → All (λ d. waiting d.1 (flush_sessions codec sessions s).channels ≡ []) sessions
  unfolding flush_sessions
  flush_sessions-waiting [] s h = tt
  flush_sessions-waiting ((a, session) ∷ rest) s h = (
    ground (
      arith,
      flush_sessions-lookup rest session.rx (flush_session codec session s) h.0,
      flush_session-waiting session s,
    ),
    flush_sessions-waiting rest (flush_session codec session s) h.1,
  )

  pub flush_sessions-frame :
      (sessions : ClientRegistry) (s : Server)
      → ((flush_sessions codec sessions s).core ≡ s.core)
        × ((flush_sessions codec sessions s).clients ≡ s.clients)
  unfolding flush_sessions flush_session
  flush_sessions-frame [] s = (refl, refl)
  flush_sessions-frame ((a, session) ∷ rest) s =
      let (c, r) = flush_sessions-frame rest (flush_session codec session s) in
      elim (Option-cases (lookup session.rx s.channels)) [
        | inl e ↦ (c ∙ ground arith, r ∙ ground arith)
        | inr (queue, e) ↦ (c ∙ ground arith, r ∙ ground arith)
      ]

  -- Where the sessions have distinct channels, a round of the outgoing task sends, for each session,
  -- one packet for each message that waits for it and can be written, in the order in which they
  -- were queued and to the session's address, leaves nothing waiting, and changes nothing else of
  -- the core and the sessions.
  pub flush_outgoing_lem :
      (s : Server)
      → HasOwnChannels s.clients
      → let s' = flush_outgoing codec s in
        (s'.sent ≡ s.sent ++ waiting_packets s.clients s.channels)
        × All (λ d. waiting d.1 s'.channels ≡ []) s.clients
        × (s'.core ≡ s.core)
        × (s'.clients ≡ s.clients)
  unfolding flush_outgoing
  flush_outgoing_lem s h = (
    flush_sessions-sent s.clients s h,
    flush_sessions-waiting s.clients s h,
    (flush_sessions-frame s.clients s).0,
    (flush_sessions-frame s.clients s).1,
  )
