-- ===== src/Realtime/Core/Deletions.antt =====
-- Deletions keep the invariant: `delete_room` of grpc_service.rs and `delete_stale_lobby_rooms` of
-- room.rs.
use kotatsu_backend.Prelude.{
  ℕ, ◌≡◌, refl, String, String_eq, not, List, [], ◌∷◌, map, filter, none, arith, if◌then◌else◌,
  ◌==◌,
}
use kotatsu_backend.HashMap.{
  HashMap, lookup, contains_key, remove, retain, IsMap, AllValues, remove-IsMap, retain-IsMap,
  remove-AllValues, lookup-remove,
}
use kotatsu_backend.Realtime.Types.{CoreState, MatchRoom, Ticket}
use kotatsu_backend.Realtime.Room.{is_stale, contains, remove_matches, delete_stale_lobby_rooms}
use kotatsu_backend.Realtime.ControlPlane.{delete_room}
use kotatsu_backend.Realtime.Core.Valid.{RoomIsValid, IsPlaced, IsValid}

-- Tickets for other rooms keep their room.
IsPlaced-remove :
    (match_id : String) (matches : HashMap String MatchRoom) (tickets : HashMap String Ticket)
    → AllValues (IsPlaced matches) tickets
    → AllValues
        (IsPlaced (remove match_id matches))
        (retain (λ t. not (t.match_id == match_id)) tickets)
unfolding retain contains_key
IsPlaced-remove match_id matches [] h = tt
IsPlaced-remove match_id matches ((k, t) ∷ ts) h = ground (
  arith,
  IsPlaced-remove match_id matches ts h.1,
  lookup-remove match_id t.match_id matches,
  String_eq.beq_iff t.match_id match_id,
  String_eq.beq_iff match_id t.match_id,
)

pub delete_room-IsValid :
    (match_id : String) (core : CoreState) → IsValid core → IsValid (delete_room match_id core).1
unfolding delete_room
delete_room-IsValid match_id core v = ground (
  arith,
  remove-IsMap match_id core.matches v.matches_map,
  remove-AllValues RoomIsValid match_id core.matches v.rooms,
  retain-IsMap (λ t. not (t.match_id == match_id)) core.tickets v.tickets_map,
  IsPlaced-remove match_id core.matches core.tickets v.placed,
)

pub lookup-remove_matches :
    (ids : List String) (j : String) (m : HashMap String MatchRoom)
    → lookup j (remove_matches ids m) ≡ (if contains ids j then none else lookup j m)
unfolding remove_matches contains
lookup-remove_matches [] j m = refl
lookup-remove_matches (id ∷ ids) j m =
    ground (arith, lookup-remove_matches ids j (remove id m), lookup-remove id j m)

remove_matches-IsMap :
    (ids : List String) (m : HashMap String MatchRoom) → IsMap m → IsMap (remove_matches ids m)
unfolding remove_matches
remove_matches-IsMap [] m h = h
remove_matches-IsMap (id ∷ ids) m h = remove_matches-IsMap ids (remove id m) (remove-IsMap id m h)

remove_matches-AllValues :
    (ids : List String) (m : HashMap String MatchRoom)
    → AllValues RoomIsValid m
    → AllValues RoomIsValid (remove_matches ids m)
unfolding remove_matches
remove_matches-AllValues [] m h = h
remove_matches-AllValues (id ∷ ids) m h =
    remove_matches-AllValues ids (remove id m) (remove-AllValues RoomIsValid id m h)

IsPlaced-remove_matches :
    (ids : List String) (matches : HashMap String MatchRoom) (tickets : HashMap String Ticket)
    → AllValues (IsPlaced matches) tickets
    → AllValues
        (IsPlaced (remove_matches ids matches))
        (retain (λ t. not (contains ids t.match_id)) tickets)
unfolding retain contains_key
IsPlaced-remove_matches ids matches [] h = tt
IsPlaced-remove_matches ids matches ((k, t) ∷ ts) h = ground (
  arith,
  IsPlaced-remove_matches ids matches ts h.1,
  lookup-remove_matches ids t.match_id matches,
)

pub delete_stale-IsValid :
    (timeout now : ℕ) (core : CoreState)
    → IsValid core
    → IsValid (delete_stale_lobby_rooms timeout now core).1
unfolding delete_stale_lobby_rooms
delete_stale-IsValid timeout now core v =
    let ids = map (λ e. e.0) (filter (λ e. is_stale now timeout e.1) core.matches) in
    ground (
      arith,
      remove_matches-IsMap ids core.matches v.matches_map,
      remove_matches-AllValues ids core.matches v.rooms,
      retain-IsMap (λ t. not (contains ids t.match_id)) core.tickets v.tickets_map,
      IsPlaced-remove_matches ids core.matches core.tickets v.placed,
    )
