-- ===== src/Realtime/Core/Links/Entering.antt =====
-- Where a player is reached who enters or leaves: player.rs. And what ticket.rs leaves of that.
use kotatsu_backend.Prelude.{
  ℕ, ℕ_eq, ◌≡◌, ◌⊎◌, ◌∙◌, ap, sym, subst, refl, String, String_eq, not, ◌&&◌, Option, none, some,
  err, arith, inl, inr, Option-cases, Bool-cases, ◌==◌, eq_of_==, leb, length,
}
use kotatsu_backend.HashMap.{
  HashMap, lookup, insert, remove, contains_key, lookup-insert, lookup-insert_self,
  lookup-remove_self,
}
use kotatsu_backend.Realtime.Types.{CoreState, MatchRoom, PlayerHandle, SocketAddr, ChannelId, udp}
use kotatsu_backend.Realtime.Magicnums.{room_max_players}
use kotatsu_backend.Realtime.Error.{Error}
use kotatsu_backend.Realtime.Ticket.{consume_ticket}
use kotatsu_backend.Realtime.Player.{remove_player, register_player_udp, entering}
use kotatsu_backend.Realtime.Core.Links.{Link, link_of, link_at, room_link}

-- A player who is removed is reached nowhere.
pub remove_player-link :
    (match_id id : String) (now : ℕ) (core : CoreState)
    → link_at match_id id (remove_player match_id id now core).matches ≡ none
unfolding remove_player room_link
remove_player-link match_id id now core = elim (Option-cases (lookup match_id core.matches)) [
  | inl e ↦ rw (e, remove_player) (rw e refl)
  | inr (room, e) ↦
      let room' = record room { players = remove id room.players; last_activity_unix = now } in
      let at = lookup-insert_self match_id room' core.matches in
      rw (e, remove_player) (rw (at, lookup-remove_self id room.players) refl)
]

pub consume_ticket-matches :
    (token : String) (now : ℕ) (core : CoreState)
    → (consume_ticket token now core).1.matches ≡ core.matches
unfolding consume_ticket
consume_ticket-matches token now core = ground arith

entering-link :
    (o : Option PlayerHandle) (name : String) (addr : SocketAddr) (tx : ChannelId)
    → link_of (entering o name addr tx) ≡ (some (udp addr), tx)
unfolding entering
entering-link none name addr tx = refl
entering-link (some p) name addr tx = refl

-- A player who registers is reached at the address and the channel given, and every other player
-- where they were.
entered-link :
    (match_id id : String) (p : PlayerHandle) (room : MatchRoom) (now : ℕ)
    (matches : HashMap String MatchRoom) (m j : String)
    → lookup match_id matches ≡ some room
    → let room' = record room { players = insert id p room.players; last_activity_unix = now } in
      let matches' = insert match_id room' matches in
      (link_at m j matches' ≡ link_at m j matches)
      ⊎ ((m ≡ match_id) × (j ≡ id) × (link_at m j matches' ≡ some (link_of p)))
unfolding room_link
entered-link match_id id p room now matches m j e =
    let room' = record room { players = insert id p room.players; last_activity_unix = now } in
    let at = lookup-insert match_id m room' matches in
    let at' = lookup-insert id j p room.players in
    elim (Bool-cases (match_id == m)) [
      | inr away ↦ inl (rw (at, away) refl)
      | inl here ↦
          let same : lookup m matches ≡ some room =
            subst (λ x. lookup x matches ≡ some room) (eq_of_== match_id m here) e in
          elim (Bool-cases (id == j)) [
            | inr away ↦ inl (rw (at, here, same) (rw (at', away) refl))
            | inl here' ↦ inr (
              sym (eq_of_== match_id m here),
              sym (eq_of_== id j here'),
              rw (at, here) (rw (at', here') refl),
            )
          ]
    ]

entered_at :
    (match_id id : String) (p : PlayerHandle) (link : Link) (m j : String) (old : Option Link)
    {matches matches' : HashMap String MatchRoom}
    → matches' ≡ matches
    → link_of p ≡ link
    → (link_at m j matches ≡ old)
      ⊎ ((m ≡ match_id) × (j ≡ id) × (link_at m j matches ≡ some (link_of p)))
    → (link_at m j matches' ≡ old)
      ⊎ ((m ≡ match_id) × (j ≡ id) × (link_at m j matches' ≡ some link))
entered_at match_id id p link m j old e f (inl same) = inl (ap (link_at m j) e ∙ same)
entered_at match_id id p link m j old e f (inr (here, here', at)) =
    inr (here, here', ap (link_at m j) e ∙ at ∙ ap some f)

pub register_player_udp-link :
    (match_id id name : String) (addr : SocketAddr) (tx : ChannelId) (now : ℕ) (core : CoreState)
    (m j : String)
    → let core' = (register_player_udp match_id id name addr tx now core).1 in
      (link_at m j core'.matches ≡ link_at m j core.matches)
      ⊎ ((m ≡ match_id) × (j ≡ id) × (link_at m j core'.matches ≡ some (some (udp addr), tx)))
unfolding register_player_udp
register_player_udp-link match_id id name addr tx now core m j =
    elim (Option-cases (lookup match_id core.matches)) [
      | inl e ↦ inl (ap (link_at m j) (ground arith))
      | inr (room, e) ↦
          let full =
            leb room_max_players (length room.players) && not (contains_key id room.players) in
          elim (Bool-cases full) [
            | inl f ↦ inl (ap (link_at m j) (ground arith))
            | inr f ↦
                let p = entering (lookup id room.players) name addr tx in
                let shape : (register_player_udp match_id id name addr tx now core).1.matches
                    ≡ insert match_id
                        (record room {
                          players = insert id p room.players;
                          last_activity_unix = now;
                        })
                        core.matches =
                  ground arith in
                entered_at match_id id p (some (udp addr), tx) m j (link_at m j core.matches) shape
                  (entering-link (lookup id room.players) name addr tx)
                  (entered-link match_id id p room now core.matches m j e)
          ]
    ]

pub register_player_udp-refused :
    (match_id id name : String) (addr : SocketAddr) (tx : ChannelId) (now : ℕ) (core : CoreState)
    (x : Error)
    → (register_player_udp match_id id name addr tx now core).0 ≡ err x
    → (register_player_udp match_id id name addr tx now core).1 ≡ core
unfolding register_player_udp
register_player_udp-refused match_id id name addr tx now core x h = ground arith
