-- ===== src/RemoteRtt/Joined.antt =====
-- When remote-rtt has joined, and that the server's answer to an accepted join is what it waits for.
use kotatsu_backend.Prelude.{
  ℕ, ℕ_eq, ◌≡◌, ◌↔◌, ◌<◌, ◌≤◌, refl, ◌∙◌, ap, String, String_eq, true, List, [], ◌∷◌, ◌++◌, Option,
  none, some, ok, arith, All, map, inl, inr, Option-cases, length, ==_refl,
}
use kotatsu_backend.HashMap.{lookup}
use kotatsu_backend.Realtime.Magicnums.{room_max_players}
use kotatsu_backend.Realtime.Types
use kotatsu_backend.Realtime.Types.{SocketAddr, Ticket, MatchRoom}
use kotatsu_backend.Realtime.State.{Server}
use kotatsu_backend.Realtime.Player.{entering}
use kotatsu_backend.Realtime.Udp.Socket.{Codec}
use kotatsu_backend.Realtime.Udp.Join.Effects.{handle_join_accepted}
use kotatsu_backend.Realtime.Layout.{unwrap_or}
use kotatsu_backend.Realtime.Broadcast.{pkt_reliable}
use kotatsu_backend.Realtime.Udp.Handlers.{Env, handle_udp_packet, handle_reliable_message}
use kotatsu_backend.TestClient.{encode_packet, parse_reliable}
use kotatsu_backend.TestClient.Messages.{JoinMatchRes}
use kotatsu_backend.TestClient.Connect.{Received, Network, connect_udp_socket}
use kotatsu_backend.RemoteRtt.Join.{
  ClientReliable, connect_and_join, ServerReliable, join_response, await_join,
}

module _ (read : List ℕ → Option ServerReliable) (player_id : String) where
  -- The packets that the loop passes over.
  abbrev pub IsPassedOver : List ℕ → Type 0
  IsPassedOver bytes = join_response read player_id bytes ≡ none

  pub await_join_pass :
      (before : List (List ℕ)) (after : List Received)
      → All IsPassedOver before
      → await_join read player_id (map Received.packet before ++ after)
        ≡ await_join read player_id after
  unfolding await_join
  await_join_pass [] after h = refl
  await_join_pass (bytes ∷ before) after h = rw (h.0, await_join) (await_join_pass before after h.1)

  -- The packet is a join_ok for the own player.
  abbrev pub IsOwnJoinOk : List ℕ → Type 0
  IsOwnJoinOk bytes =
      (match_id : String) × (now_ms : ℕ) × (parse_reliable read bytes
        ≡ some (ServerReliable.join_ok match_id player_id now_ms))

  join_response-IsOwnJoinOk :
      (bytes : List ℕ) → join_response read player_id bytes ≡ some (ok tt) → IsOwnJoinOk bytes
  unfolding join_response
  join_response-IsOwnJoinOk bytes h = elim (Option-cases (parse_reliable read bytes)) [
    | inl e ↦ absurd (ground arith)
    | inr (msg, e) ↦ own msg e
  ]
    where
      own : (msg : ServerReliable) → parse_reliable read bytes ≡ some msg → IsOwnJoinOk bytes
      own (ServerReliable.join_ok match_id got now_ms) e =
          (match_id, now_ms, ground (arith, String_eq.beq_iff got player_id))
      own (ServerReliable.error code message) e = absurd (ground arith)
      own (ServerReliable.match_started match_id started_at now_ms) e = absurd (ground arith)

  IsOwnJoinOk-join_response :
      (bytes : List ℕ) → IsOwnJoinOk bytes → join_response read player_id bytes ≡ some (ok tt)
  unfolding join_response
  IsOwnJoinOk-join_response bytes (match_id, now_ms, h) =
      rw (h, join_response) (ground (arith, ==_refl player_id))

  -- The first packets are passed over, and the one behind them is a join_ok for the own player.
  abbrev pub IsAnswered : List Received → Type 0
  IsAnswered received =
      (before : List (List ℕ)) × (bytes : List ℕ) × (after : List Received) × (received
        ≡ map Received.packet before ++ Received.packet bytes ∷ after)
      × All IsPassedOver before
      × IsOwnJoinOk bytes

  await_join-IsAnswered :
      (received : List Received) → await_join read player_id received ≡ ok tt → IsAnswered received
  unfolding await_join
  await_join-IsAnswered [] h = absurd (ground arith)
  await_join-IsAnswered (Received.recv_failed ∷ rest) h = absurd (ground arith)
  await_join-IsAnswered (Received.packet bytes ∷ rest) h =
      elim (Option-cases (join_response read player_id bytes)) [
        | inl e ↦
            let (before, last, after, same, passed, own) =
              await_join-IsAnswered rest (rw (e, await_join) at h) in
            (
              bytes ∷ before,
              last,
              after,
              ap (λ r. Received.packet bytes ∷ r) same,
              (e, passed),
              own,
            )
        | inr (result, e) ↦
            let fine : result ≡ ok tt = ground arith in
            ([], bytes, rest, refl, tt, join_response-IsOwnJoinOk bytes (rw fine at e))
      ]

  -- The loop ends well just where, behind packets that it passes over, a packet is a join_ok for the
  -- own player.
  pub await_join_ok :
      (received : List Received)
      → (await_join read player_id received ≡ ok tt) ↔ IsAnswered received
  unfolding await_join
  await_join_ok received = (
    await_join-IsAnswered received,
    λ (before, bytes, after, same, passed, own). rw same (
        await_join_pass before (Received.packet bytes ∷ after) passed
        ∙ rw (IsOwnJoinOk-join_response bytes own, await_join) refl),
  )

-- A client that was issued a ticket sends its join to the server, which lets it in, and both sides
-- read what the other writes. Then the server answers the packet that the client sent with one packet, and the client that
-- receives this answer, behind packets that it passes over, has joined as the player of the ticket.
pub connect_and_join-handle_join :
    {F32 : Type 0} (codec : Codec F32) (env : Env) (addr : SocketAddr) (s : Server) (t : Ticket)
    (room : MatchRoom) (read : List ℕ → Option ServerReliable)
    (write : ClientReliable → Option (List ℕ)) (net : Network) (ticket : JoinMatchRes)
    (udp_override_url : Option String) (server_addr : SocketAddr) (text json : List ℕ)
    (before : List (List ℕ)) (after : List Received)
    → lookup addr s.clients ≡ none
    → lookup ticket.token s.core.tickets ≡ some t
    → env.join.consumed_at ≤ t.expires_at_unix
    → lookup t.match_id s.core.matches ≡ some room
    → length room.players < room_max_players
    → env.join.accepted ≡ true
    → t.player_id ≡ ticket.player_id
    → connect_udp_socket net (unwrap_or udp_override_url ticket.udp_url) ≡ ok server_addr
    → write (ClientReliable.join ticket.token) ≡ some text
    → codec.read_reliable text ≡ some (Types.ClientReliable.join ticket.token)
    → let p = entering (lookup t.player_id room.players) t.display_name addr env.join.channel in
      codec.write_reliable (Types.join_ok t.match_id t.player_id p.params env.join.now_ms)
        ≡ some json
      → read json ≡ some (ServerReliable.join_ok t.match_id t.player_id env.join.now_ms)
      → All (IsPassedOver read ticket.player_id) before
      → let reply = pkt_reliable ∷ json in
        let s' = handle_udp_packet codec env addr (pkt_reliable ∷ text) s in
        (s'.sent ≡ s.sent ++ record { dest = addr; bytes = reply } ∷ [])
        × (connect_and_join read write net ticket udp_override_url true
              (map Received.packet before ++ Received.packet reply ∷ after)
            ≡ (
              ok (record { player_id = ticket.player_id; socket = server_addr }),
              record { dest = server_addr; bytes = pkt_reliable ∷ text } ∷ [],
            ))
unfolding connect_and_join encode_packet handle_udp_packet handle_reliable_message parse_reliable
connect_and_join-handle_join codec env addr s t room read write net ticket udp_override_url
      server_addr text json before after c l fresh r lt a same net_ok w seen answer heard passed =
    let accepted =
      handle_join_accepted codec env.join addr ticket.token s t room json c l fresh r lt a answer in
    let heard' : read json
        ≡ some (ServerReliable.join_ok t.match_id ticket.player_id env.join.now_ms) =
      rw (← same) heard in
    let joined =
      (await_join_ok read ticket.player_id
          (map Received.packet before ++ Received.packet (pkt_reliable ∷ json) ∷ after)).1
        (before, pkt_reliable ∷ json, after, refl, passed, (t.match_id, env.join.now_ms, heard')) in
    (rw (seen, handle_reliable_message) accepted.1, rw (net_ok, connect_and_join, w, joined) refl)
