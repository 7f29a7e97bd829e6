-- ===== src/Realtime/Udp/Join/Stale.antt =====
-- A session outlives its match: `handle_join` of udp_connection.rs and `delete_room` of
-- grpc_service.rs.
use kotatsu_backend.Prelude.{
  ℕ, ℕ_eq, ◌<◌, ◌≤◌, ◌≡◌, ◌≢◌, refl, sym, String, String_eq, true, false, not, List, none, some,
  arith, length, ◌==◌, ==_of_ne, ◌∙◌,
}
use kotatsu_backend.HashMap.{
  lookup, contains_key, insert, remove, retain, IsMap, lookup-insert_self, lookup-insert_ne,
  lookup-remove_self, lookup-remove, lookup-retain, remove-IsMap,
}
use kotatsu_backend.Realtime.Magicnums.{room_max_players}
use kotatsu_backend.Realtime.Types.{CoreState, SocketAddr, Ticket, MatchRoom, join_ok}
use kotatsu_backend.Realtime.Player.{entering}
use kotatsu_backend.Realtime.State.{Server, ClientSession}
use kotatsu_backend.Realtime.ControlPlane.{delete_room}
use kotatsu_backend.Realtime.Udp.Socket.{Codec}
use kotatsu_backend.Realtime.Udp.Join.{JoinEnv, handle_join}
use kotatsu_backend.Realtime.Udp.Join.Effects.{handle_join_accepted}

delete_room_matches :
    (match_id : String) (core : CoreState) (room : MatchRoom)
    → lookup match_id core.matches ≡ some room
    → (delete_room match_id core).1 ≡ record {
      matches = remove match_id core.matches;
      tickets = retain (λ (t : Ticket). not (t.match_id == match_id)) core.tickets;
    }
unfolding delete_room
delete_room_matches match_id core room e =
    let found : contains_key match_id core.matches ≡ true = unfold contains_key in ground arith in
    rw (found, delete_room) refl

-- A deletion leaves the other matches and their tickets.
delete_room-others :
    (match_id token : String) (core : CoreState) (room other : MatchRoom) (t : Ticket)
    → lookup match_id core.matches ≡ some room
    → IsMap core.tickets
    → lookup token core.tickets ≡ some t
    → match_id ≢ t.match_id
    → lookup t.match_id core.matches ≡ some other
    → let core' = (delete_room match_id core).1 in
      (lookup match_id core'.matches ≡ none)
      × (lookup token core'.tickets ≡ some t)
      × (lookup t.match_id core'.matches ≡ some other)
delete_room-others match_id token core room other t there is_map l ne o =
    let kept : (t.match_id == match_id) ≡ false = ==_of_ne t.match_id match_id (λ q. ne (sym q)) in
    let apart : (match_id == t.match_id) ≡ false = ==_of_ne match_id t.match_id ne in
    rw (delete_room_matches match_id core room there) (
      lookup-remove_self match_id core.matches,
      lookup-retain (λ (u : Ticket). not (u.match_id == match_id)) token core.tickets is_map
          ∙ rw (l, kept) refl,
      lookup-remove match_id t.match_id core.matches ∙ rw (apart, o) refl,
    )

module _ {F32 : Type 0} (codec : Codec F32) (env later : JoinEnv) (addr : SocketAddr)
    (token token' : String) where
  handle_join_with_session :
      (s : Server) (session : ClientSession)
      → lookup addr s.clients ≡ some session
      → handle_join codec later addr token' s ≡ s
  unfolding handle_join contains_key
  handle_join_with_session s session h = ground arith

  -- A client joins from an address without a session, as `handle_join_accepted` has it, and then its
  -- match is deleted. The match is gone, but a join from the same address with a second ticket, which
  -- is for another match, changes nothing and is not answered: the second ticket is still there, and
  -- the other match is as it was before.
  pub handle_join_after_delete :
      (s : Server) (t t' : Ticket) (room other : MatchRoom) (json : List ℕ)
      → lookup addr s.clients ≡ none
      → lookup token s.core.tickets ≡ some t
      → env.consumed_at ≤ t.expires_at_unix
      → lookup t.match_id s.core.matches ≡ some room
      → length room.players < room_max_players
      → env.accepted ≡ true
      → let p = entering (lookup t.player_id room.players) t.display_name addr env.channel in
        codec.write_reliable (join_ok t.match_id t.player_id p.params env.now_ms) ≡ some json
        → IsMap s.core.tickets
        → lookup token' s.core.tickets ≡ some t'
        → token ≢ token'
        → lookup t'.match_id s.core.matches ≡ some other
        → t.match_id ≢ t'.match_id
        → let joined = handle_join codec env addr token s in
          let deleted = record joined { core = (delete_room t.match_id joined.core).1 } in
          let s' = handle_join codec later addr token' deleted in
          (lookup t.match_id deleted.core.matches ≡ none)
          × (s' ≡ deleted)
          × (lookup token' s'.core.tickets ≡ some t')
          × (lookup t'.match_id s'.core.matches ≡ some other)
  handle_join_after_delete s t t' room other json c l fresh r lt a w is_map l' ne o ne_match =
      let p = entering (lookup t.player_id room.players) t.display_name addr env.channel in
      let room' = record room {
        players = insert t.player_id p room.players;
        last_activity_unix = env.registered_at;
      } in
      let (core_is, sent_is, opened, queue) =
        handle_join_accepted codec env addr token s t room json c l fresh r lt a w in
      let joined = handle_join codec env addr token s in
      let there : lookup t.match_id joined.core.matches ≡ some room' =
        rw core_is (lookup-insert_self t.match_id room' s.core.matches) in
      let is_map' : IsMap joined.core.tickets =
        rw core_is (remove-IsMap token s.core.tickets is_map) in
      let unused : lookup token' joined.core.tickets ≡ some t' =
        rw core_is
          (lookup-remove token token' s.core.tickets ∙ rw (==_of_ne token token' ne, l') refl) in
      let untouched : lookup t'.match_id joined.core.matches ≡ some other =
        rw core_is (lookup-insert_ne t.match_id t'.match_id room' s.core.matches ne_match ∙ o) in
      let rest =
        delete_room-others t.match_id token' joined.core room' other t' there is_map' unused
          ne_match untouched in
      let deleted = record joined { core = (delete_room t.match_id joined.core).1 } in
      let ignored = handle_join_with_session deleted _ opened in
      (rest.0, ignored, rw ignored rest.1, rw ignored rest.2)
