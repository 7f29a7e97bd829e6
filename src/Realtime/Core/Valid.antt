-- ===== src/Realtime/Core/Valid.antt =====
-- The invariant of `core`, and how single writes keep it.
use kotatsu_backend.Prelude.{
  ℕ, ◌≤◌, ◌≡◌, String, String_eq, true, List, [], ◌∷◌, none, some, arith, length,
}
use kotatsu_backend.HashMap.{
  HashMap, lookup, contains_key, insert, remove, IsMap, AllValues, insert-IsMap, insert-AllValues,
  remove-IsMap, remove-AllValues, contains_key-insert, AllValues-imp, lookup-AllValues,
  length-insert_old,
}
use kotatsu_backend.Realtime.Magicnums.{room_max_players}
use kotatsu_backend.Realtime.Types.{CoreState, MatchRoom, PlayerHandle, Ticket}
use kotatsu_backend.Realtime.Params.Range.{IsInRange}
use kotatsu_backend.Realtime.Room.{position}

-- No text is listed twice.
abbrev pub IsDistinct : List String → Type 0
IsDistinct [] = Unit {0}
IsDistinct (x ∷ xs) = (position x xs ≡ none) × IsDistinct xs

abbrev pub HasLevels : PlayerHandle → Type 0
HasLevels p = IsInRange p.params

pub record RoomIsValid (room : MatchRoom) : Type 0 where
  pub players_map : IsMap room.players
  pub capacity : length room.players ≤ room_max_players
  pub levels : AllValues HasLevels room.players
  pub finished_once : IsDistinct room.finished_player_ids
  pub lobby_open : room.started_at_unix ≡ 0 → room.finished_player_ids ≡ []

-- The ticket is for a room that exists.
abbrev pub IsPlaced : HashMap String MatchRoom → Ticket → Type 0
IsPlaced matches t = contains_key t.match_id matches ≡ true

pub record IsValid (core : CoreState) : Type 0 where
  pub matches_map : IsMap core.matches
  pub rooms : AllValues RoomIsValid core.matches
  pub tickets_map : IsMap core.tickets
  pub placed : AllValues (IsPlaced core.matches) core.tickets

module _ {core : CoreState} (v : IsValid core) where
  -- A room found is valid.
  pub lookup-RoomIsValid :
      (match_id : String) (room : MatchRoom)
      → lookup match_id core.matches ≡ some room
      → RoomIsValid room
  lookup-RoomIsValid match_id room e =
      lookup-AllValues RoomIsValid match_id room core.matches v.rooms e

  -- Writing a valid room keeps the whole valid.
  pub insert_match-IsValid :
      (match_id : String) (room : MatchRoom)
      → RoomIsValid room
      → IsValid (record core { matches = insert match_id room core.matches })
  insert_match-IsValid match_id room r = record {
    matches_map = insert-IsMap match_id room core.matches v.matches_map;
    rooms = insert-AllValues RoomIsValid match_id room core.matches v.rooms r;
    tickets_map = v.tickets_map;
    placed =
        AllValues-imp (IsPlaced core.matches) (IsPlaced (insert match_id room core.matches))
          core.tickets (λ t. contains_key-insert match_id t.match_id room core.matches) v.placed;
  }

  -- A ticket for a room that exists is added.
  pub insert_ticket-IsValid :
      (token : String) (t : Ticket)
      → IsPlaced core.matches t
      → IsValid (record core { tickets = insert token t core.tickets })
  insert_ticket-IsValid token t h = record {
    matches_map = v.matches_map;
    rooms = v.rooms;
    tickets_map = insert-IsMap token t core.tickets v.tickets_map;
    placed = insert-AllValues (IsPlaced core.matches) token t core.tickets v.placed h;
  }

  pub remove_ticket-IsValid :
      (token : String) → IsValid (record core { tickets = remove token core.tickets })
  remove_ticket-IsValid token = record {
    matches_map = v.matches_map;
    rooms = v.rooms;
    tickets_map = remove-IsMap token core.tickets v.tickets_map;
    placed = remove-AllValues (IsPlaced core.matches) token core.tickets v.placed;
  }

-- The times of a room do not matter, as long as a lobby has nobody who has finished.
pub retimed-RoomIsValid :
    {room : MatchRoom} (started last : ℕ)
    → RoomIsValid room
    → (started ≡ 0 → room.finished_player_ids ≡ [])
    → RoomIsValid (record room { started_at_unix = started; last_activity_unix = last })
retimed-RoomIsValid started last v h = record {
  players_map = v.players_map;
  capacity = v.capacity;
  levels = v.levels;
  finished_once = v.finished_once;
  lobby_open = h;
}

module _ {room : MatchRoom} (v : RoomIsValid room) where
  -- Writing a known player, whose levels are in range, keeps the room valid.
  pub write_player-RoomIsValid :
      (player_id : String) (old p : PlayerHandle) (now : ℕ)
      → lookup player_id room.players ≡ some old
      → HasLevels p
      → RoomIsValid
          (record room { players = insert player_id p room.players; last_activity_unix = now })
  write_player-RoomIsValid player_id old p now e h = record {
    players_map = insert-IsMap player_id p room.players v.players_map;
    capacity = omega (arith, length-insert_old player_id p old room.players e, v.capacity);
    levels = insert-AllValues HasLevels player_id p room.players v.levels h;
    finished_once = v.finished_once;
    lobby_open = v.lobby_open;
  }
