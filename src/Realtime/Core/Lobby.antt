-- ===== src/Realtime/Core/Lobby.antt =====
-- How rooms disappear: `delete_stale_lobby_rooms` of room.rs and `delete_room` of grpc_service.rs.
use kotatsu_backend.Prelude.{
  ℕ, ◌-◌, ◌≡◌, refl, String, String_eq, Bool, false, not, ◌&&◌, List, [], ◌∷◌, map, filter, none,
  some, arith, inl, inr, Option-cases, ok, err, nat_eq, leb, if◌then◌else◌, ◌==◌,
}
use kotatsu_backend.HashMap.{
  HashMap, lookup, contains_key, IsMap, lookup-remove, lookup-retain, lookup-AllValues,
}
use kotatsu_backend.Realtime.Types.{CoreState, MatchRoom}
use kotatsu_backend.Realtime.Room.{contains, is_stale, delete_stale_lobby_rooms}
use kotatsu_backend.Realtime.ControlPlane.{delete_room, match_not_found}
use kotatsu_backend.Realtime.Core.Valid.{IsPlaced, IsValid}
use kotatsu_backend.Realtime.Core.Deletions.{lookup-remove_matches}

-- The ids of the stale rooms.
abbrev pub stale_ids : ℕ → ℕ → HashMap String MatchRoom → List String
stale_ids now timeout matches = map (λ e. e.0) (filter (λ e. is_stale now timeout e.1) matches)

-- Whether a match is a lobby that has been idle for the timeout.
abbrev pub is_idle_lobby : ℕ → ℕ → HashMap String MatchRoom → String → Bool
is_idle_lobby now timeout matches id = elim (lookup id matches) [
  | none ↦ false
  | some room ↦ nat_eq room.started_at_unix 0 && leb timeout (now - room.last_activity_unix)
]

contains-stale_none :
    (now timeout : ℕ) (id : String) (matches : HashMap String MatchRoom)
    → lookup id matches ≡ none
    → contains (stale_ids now timeout matches) id ≡ false
unfolding lookup contains
contains-stale_none now timeout id [] h = refl
contains-stale_none now timeout id ((k, room) ∷ m) h =
    ground (arith, contains-stale_none now timeout id m)

pub contains-stale_ids :
    (now timeout : ℕ) (id : String) (matches : HashMap String MatchRoom)
    → IsMap matches
    → contains (stale_ids now timeout matches) id ≡ is_idle_lobby now timeout matches id
unfolding lookup contains is_stale
contains-stale_ids now timeout id [] h = refl
contains-stale_ids now timeout id ((k, room) ∷ m) h = ground (
  arith,
  contains-stale_ids now timeout id m h.1,
  contains-stale_none now timeout id m,
  String_eq.beq_iff k id,
)

delete_stale-matches :
    (timeout now : ℕ) (core : CoreState) (id : String)
    → IsValid core
    → lookup id (delete_stale_lobby_rooms timeout now core).1.matches
      ≡ (if is_idle_lobby now timeout core.matches id then none else lookup id core.matches)
unfolding delete_stale_lobby_rooms
delete_stale-matches timeout now core id v = ground (
  arith,
  lookup-remove_matches (stale_ids now timeout core.matches) id core.matches,
  contains-stale_ids now timeout id core.matches v.matches_map,
)

delete_stale-tickets :
    (timeout now : ℕ) (core : CoreState) (token : String)
    → IsValid core
    → lookup token (delete_stale_lobby_rooms timeout now core).1.tickets
      ≡ elim (lookup token core.tickets) [
        | none ↦ none
        | some t ↦ if is_idle_lobby now timeout core.matches t.match_id then none else some t
      ]
unfolding delete_stale_lobby_rooms
delete_stale-tickets timeout now core token v =
    let ids = stale_ids now timeout core.matches in
    let kept =
      lookup-retain (λ t. not (contains ids t.match_id)) token core.tickets v.tickets_map in
    elim (Option-cases (lookup token core.tickets)) [
      | inl e ↦ ground (arith, kept)
      | inr (t, e) ↦
          ground (arith, kept, contains-stale_ids now timeout t.match_id core.matches v.matches_map)
    ]

-- The cleanup deletes exactly the lobbies that have been idle for the timeout, reports exactly
-- these, and drops exactly the tickets for them; every other room and ticket stays as it was.
pub delete_stale_lobby_rooms_lem :
    (timeout now : ℕ) (core : CoreState) (id token : String)
    → IsValid core
    → let (ids, core') = delete_stale_lobby_rooms timeout now core in
      (contains ids id ≡ is_idle_lobby now timeout core.matches id)
      × (lookup id core'.matches
          ≡ (if is_idle_lobby now timeout core.matches id then none else lookup id core.matches))
      × (lookup token core'.tickets ≡ elim (lookup token core.tickets) [
        | none ↦ none
        | some t ↦ if is_idle_lobby now timeout core.matches t.match_id then none else some t
      ])
unfolding delete_stale_lobby_rooms
delete_stale_lobby_rooms_lem timeout now core id token v = (
  ground (arith, contains-stale_ids now timeout id core.matches v.matches_map),
  delete_stale-matches timeout now core id v,
  delete_stale-tickets timeout now core token v,
)

-- Deleting a room that exists succeeds and takes away that room and exactly its tickets; deleting
-- one that does not exist is refused as not found and changes nothing.
pub delete_room_lem :
    (match_id : String) (core : CoreState) (id token : String)
    → IsValid core
    → let (r, core') = delete_room match_id core in
      (r ≡ (if contains_key match_id core.matches then ok tt else err match_not_found))
      × (lookup id core'.matches ≡ (if match_id == id then none else lookup id core.matches))
      × (lookup token core'.tickets ≡ elim (lookup token core.tickets) [
        | none ↦ none
        | some t ↦ if t.match_id == match_id then none else some t
      ])
unfolding delete_room contains_key
delete_room_lem match_id core id token v =
    let kept = lookup-retain (λ t. not (t.match_id == match_id)) token core.tickets v.tickets_map in
    let matches' = lookup-remove match_id id core.matches in
    elim (Option-cases (lookup token core.tickets)) [
      | inl e ↦ (
        ground arith,
        ground (arith, matches', String_eq.beq_iff match_id id),
        ground (arith, kept),
      )
      | inr (t, e) ↦ (
        ground arith,
        ground (arith, matches', String_eq.beq_iff match_id id),
        ground (
          arith,
          kept,
          String_eq.beq_iff t.match_id match_id,
          lookup-AllValues (IsPlaced core.matches) token t core.tickets v.placed e,
        ),
      )
    ]
