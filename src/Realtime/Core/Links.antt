-- ===== src/Realtime/Core/Links.antt =====
-- Where the players of the matches are reached: a write in the maps of types.rs keeps that or
-- forgets it.
pub mod Calls
pub mod Entering
use mathlib.Core.Option
use kotatsu_backend.Prelude.{
  ℕ, ◌+◌, ◌≡◌, ◌⊎◌, refl, ◌∙◌, ap, String, String_eq, true, false, List, [], ◌∷◌, Option, none,
  some, arith, inl, inr, Option-cases, Bool-cases, ◌==◌, eq_of_==, subst, sym, if◌then◌else◌, map,
}
use kotatsu_backend.Prelude.Order.{String_order}
use kotatsu_backend.Sort.{sort_by}
use kotatsu_backend.HashMap.{
  HashMap, lookup, insert, remove, contains_key, lookup-insert, lookup-remove,
}
use kotatsu_backend.Realtime.Types.{
  CoreState, MatchRoom, PlayerHandle, PlayerConnection, ChannelId, new_room,
}
use kotatsu_backend.Realtime.Magicnums.{room_max_players}
use kotatsu_backend.Realtime.Layout.{
  Shuffle, laid_out, assign_one, assign_from, assign_randomized_layout, range,
}
use kotatsu_backend.Realtime.Layout.Loop.{lookup-assign_one}
use kotatsu_backend.Realtime.Ticket.{consume_ticket}
use kotatsu_backend.Realtime.Player.{remove_player}
use kotatsu_backend.Realtime.Room
use kotatsu_backend.Realtime.ControlPlane

-- The connection and the channel of a handle.
abbrev pub Link : Type 0
Link = Option PlayerConnection × ChannelId

abbrev pub link_of : PlayerHandle → Link
link_of p = (p.connection, p.reliable_tx)

abbrev pub link_in : String → HashMap String PlayerHandle → Option Link
link_in player_id players = Option.map link_of (lookup player_id players)

unfoldable pub room_link : String → Option MatchRoom → Option Link
room_link player_id none = none
room_link player_id (some room) = link_in player_id room.players

abbrev pub link_at : String → String → HashMap String MatchRoom → Option Link
link_at match_id player_id matches = room_link player_id (lookup match_id matches)

-- Every link stays or goes.
abbrev pub KeepsPlayers : HashMap String PlayerHandle → HashMap String PlayerHandle → Type 0
KeepsPlayers players players' =
    (id : String) → (link_in id players' ≡ link_in id players) ⊎ (link_in id players' ≡ none)

abbrev pub KeepsLinks : HashMap String MatchRoom → HashMap String MatchRoom → Type 0
KeepsLinks matches matches' =
    (m id : String)
    → (link_at m id matches' ≡ link_at m id matches) ⊎ (link_at m id matches' ≡ none)

-- A room is written over another, or over none.
pub insert-KeepsLinks :
    (match_id : String) (room room' : MatchRoom) (matches : HashMap String MatchRoom)
    → lookup match_id matches ≡ some room
    → KeepsPlayers room.players room'.players
    → KeepsLinks matches (insert match_id room' matches)
unfolding room_link
insert-KeepsLinks match_id room room' matches e keeps m id =
    let at = lookup-insert match_id m room' matches in
    elim (Bool-cases (match_id == m)) [
      | inl here ↦
          let same : lookup m matches ≡ some room =
            subst (λ x. lookup x matches ≡ some room) (eq_of_== match_id m here) e in
          rw (at, here, same) (keeps id)
      | inr away ↦ inl (rw (at, away) refl)
    ]

pub empty-KeepsLinks :
    (match_id : String) (room' : MatchRoom) (matches : HashMap String MatchRoom)
    → room'.players ≡ []
    → KeepsLinks matches (insert match_id room' matches)
unfolding room_link lookup
empty-KeepsLinks match_id room' matches e m id =
    let at = lookup-insert match_id m room' matches in
    elim (Bool-cases (match_id == m)) [
      | inl here ↦ inr (rw (at, here) (rw (e, link_in) refl))
      | inr away ↦ inl (rw (at, away) refl)
    ]

pub remove-KeepsLinks :
    (match_id : String) (matches : HashMap String MatchRoom)
    → KeepsLinks matches (remove match_id matches)
unfolding room_link
remove-KeepsLinks match_id matches m id =
    let at = lookup-remove match_id m matches in
    elim (Bool-cases (match_id == m)) [
      | inl here ↦ inr (rw (at, here) refl)
      | inr away ↦ inl (rw (at, away) refl)
    ]

pub remove-KeepsPlayers :
    (id : String) (players : HashMap String PlayerHandle) → KeepsPlayers players (remove id players)
remove-KeepsPlayers id players j =
    let at = lookup-remove id j players in
    elim (Bool-cases (id == j)) [
      | inl here ↦ inr (rw (at, here) refl)
      | inr away ↦ inl (rw (at, away) refl)
    ]

-- A handle is written over another with the same link.
pub write-KeepsPlayers :
    (id : String) (old p : PlayerHandle) (players : HashMap String PlayerHandle)
    → lookup id players ≡ some old
    → link_of p ≡ link_of old
    → KeepsPlayers players (insert id p players)
write-KeepsPlayers id old p players e same j =
    let at = lookup-insert id j p players in
    elim (Bool-cases (id == j)) [
      | inl here ↦ inl (
          let was : lookup j players ≡ some old =
            subst (λ x. lookup x players ≡ some old) (eq_of_== id j here) e in
          rw (at, here, was) (ap some same))
      | inr away ↦ inl (rw (at, away) refl)
    ]

laid_out-link :
    (shuffle : Shuffle) (colors : List ℕ) (index : ℕ) (o : Option PlayerHandle)
    → Option.map link_of (Option.map (laid_out shuffle colors index) o) ≡ Option.map link_of o
unfolding laid_out
laid_out-link shuffle colors index none = refl
laid_out-link shuffle colors index (some p) = refl

pub assign_from-link :
    (shuffle : Shuffle) (colors : List ℕ) (index : ℕ) (ids : List String)
    (players : HashMap String PlayerHandle) (id : String)
    → link_in id (assign_from shuffle colors index ids players) ≡ link_in id players
unfolding assign_from
assign_from-link shuffle colors index [] players id = refl
assign_from-link shuffle colors index (x ∷ ids) players id =
    let one = lookup-assign_one shuffle colors index x id players in
    assign_from-link shuffle colors (index + 1) ids (assign_one shuffle colors index x players) id
    ∙ elim (Bool-cases (x == id)) [
      | inl here ↦ rw (one, here) (laid_out-link shuffle colors index (lookup id players))
      | inr away ↦ rw (one, away) refl
    ]

pub KeepsPlayers-refl : (players : HashMap String PlayerHandle) → KeepsPlayers players players
KeepsPlayers-refl players id = inl refl

pub KeepsLinks-trans :
    (m0 m1 m2 : HashMap String MatchRoom) → KeepsLinks m0 m1 → KeepsLinks m1 m2 → KeepsLinks m0 m2
KeepsLinks-trans m0 m1 m2 f g m id = elim (g m id) [
  | inr gone ↦ inr gone
  | inl same ↦ elim (f m id) [ inl e ↦ inl (same ∙ e) | inr gone ↦ inr (same ∙ gone) ]
]

pub KeepsLinks-refl : (matches : HashMap String MatchRoom) → KeepsLinks matches matches
KeepsLinks-refl matches m id = inl refl

pub KeepsLinks-of_eq :
    (m0 : HashMap String MatchRoom) {m1 m2 : HashMap String MatchRoom}
    → m2 ≡ m1
    → KeepsLinks m0 m1
    → KeepsLinks m0 m2
KeepsLinks-of_eq m0 e k = subst (KeepsLinks m0) (sym e) k
