-- ===== src/Realtime/ControlPlane/Listing.antt =====
-- What the listings show: `list_rooms` and `room_players` of grpc_service.rs, and
-- `snapshot_players` of room.rs.
use mathlib.Core.List.{
  Mem, Nodup, Perm, Permᴰ, Nodup-nil, Nodup-cons, mem-cons, mem-cons_self, mem-cons_of_mem,
  not-mem-nil,
}
use mathlib.Core.List
use mathlib.Core.List.Perm
use mathlib.Core.Logic.Or
use mathlib.Core.HLevel.{⊥_prop}
use native.Mathlib.Nat.{ℕ_set}
use kotatsu_backend.Prelude.{
  ◌≡◌, refl, ap, ◌∙◌, String, String_eq, String_set, Bool, List, [], ◌∷◌, none, some, arith, inl,
  inr, map, filter, nat_eq, subst, Option, Option-cases, if◌then◌else◌, ==_of_eq, ◌≢◌, All, All-imp,
  ◌==◌, ==_refl, ℕ_eq, eq_of_==, Bool-cases,
}
use kotatsu_backend.Prelude.Order.{String_order}
use kotatsu_backend.Prelude.Perms.{filter-perm}
use kotatsu_backend.HashMap.{HashMap, lookup, retain, IsMap, IsMap-Nodup, retain-IsMap}
use kotatsu_backend.Sort.{
  sort_by, IsSorted, sort_by-IsSorted, sort_by-perm, sort_by-eq_of_perm, All-sort_by,
}
use kotatsu_backend.Realtime.Types.{CoreState, MatchRoom, PlayerMatchState}
use kotatsu_backend.Realtime.Status.{RoomPlayer, RoomSummary}
use kotatsu_backend.Realtime.Layout.{match_state, snapshot_players}
use kotatsu_backend.Realtime.ControlPlane.{room_player, room_players, room_summary, list_rooms}

RoomPlayer-set : IsSet RoomPlayer
RoomPlayer-set = hlevel (String_set, ℕ_set)

RoomSummary-set : IsSet RoomSummary
RoomSummary-set = hlevel (String_set, ℕ_set)

PlayerMatchState-set : IsSet PlayerMatchState
PlayerMatchState-set = hlevel (String_set, ℕ_set)

map-map :
    {A B C : Type 0} (g : B → C) (f : A → B) (xs : List A)
    → map g (map f xs) ≡ map (λ x. g (f x)) xs
map-map g f [] = refl
map-map g f (x ∷ xs) = ap (λ ys. g (f x) ∷ ys) (map-map g f xs)

-- Rows of distinct keys, listed in the order of the keys, do not depend on the order of the map.
rows_perm :
    {V R : Type 0}
    → IsSet R
    → (row : String × V → R) (key : R → String) (m m' : HashMap String V)
    → Nodup (map (λ e. key (row e)) m)
    → Perm m m'
    → sort_by key (map row m) ≡ sort_by key (map row m')
rows_perm set row key m m' d p =
    sort_by-eq_of_perm key (List.is_set set) (map row m) (map row m') (Perm.map row p)
      (rw (map-map key row m) d)

filter-eq-retain :
    {V : Type 0} (p : V → Bool) (m : HashMap String V) → filter (λ e. p e.1) m ≡ retain p m
unfolding retain
filter-eq-retain p [] = refl
filter-eq-retain p ((k, v) ∷ m) = ground (arith, filter-eq-retain p m)

-- The players that a room shows and those of its start message are the same in whatever order the
-- map of the room's players is iterated.
pub room_players_perm :
    (room room' : MatchRoom)
    → IsMap room.players
    → Perm room.players room'.players
    → (room_players room ≡ room_players room') × (snapshot_players room ≡ snapshot_players room')
unfolding room_players snapshot_players
room_players_perm room room' h p =
    let d = IsMap-Nodup room.players h in
    (
      rows_perm RoomPlayer-set room_player (λ q. q.player_id) room.players room'.players d p,
      rows_perm PlayerMatchState-set match_state (λ q. q.player_id) room.players room'.players d p,
    )

-- The rooms listed are the same in whatever order the map of the matches is iterated.
pub list_rooms_perm :
    (core core' : CoreState)
    → IsMap core.matches
    → Perm core.matches core'.matches
    → list_rooms core ≡ list_rooms core'
unfolding list_rooms
list_rooms_perm core core' h p =
    let open_rooms = retain (λ room. nat_eq room.started_at_unix 0) core.matches in
    rows_perm RoomSummary-set room_summary (λ r. r.match_id)
      (filter (λ e. nat_eq e.1.started_at_unix 0) core.matches)
      (filter (λ e. nat_eq e.1.started_at_unix 0) core'.matches)
      (rw (filter-eq-retain (λ room. nat_eq room.started_at_unix 0) core.matches) (
        IsMap-Nodup open_rooms
          (retain-IsMap (λ room. nat_eq room.started_at_unix 0) core.matches h)))
      (filter-perm (λ e. nat_eq e.1.started_at_unix 0) core.matches core'.matches p)

-- The row is that of a lobby of the map.
abbrev pub IsLobbyOf : HashMap String MatchRoom → RoomSummary → Type 0
IsLobbyOf m r =
    (room : MatchRoom) × (lookup r.match_id m ≡ some room)
    × (room.started_at_unix ≡ 0)
    × (r ≡ room_summary (r.match_id, room))

IsLobbyOf-cons :
    (k : String) (v : MatchRoom) (m : HashMap String MatchRoom)
    → lookup k m ≡ none
    → (r : RoomSummary) → IsLobbyOf m r
    → IsLobbyOf ((k, v) ∷ m) r
unfolding lookup
IsLobbyOf-cons k v m h r (room, l, z, e) =
    (room, ground (arith, String_eq.beq_iff k r.match_id), z, e)

lobby_rows : HashMap String MatchRoom → List RoomSummary
lobby_rows m = map room_summary (filter (λ e. nat_eq e.1.started_at_unix 0) m)

lobby_rows-IsLobbyOf : (m : HashMap String MatchRoom) → IsMap m → All (IsLobbyOf m) (lobby_rows m)
unfolding lookup lobby_rows
lobby_rows-IsLobbyOf [] h = tt
lobby_rows-IsLobbyOf ((k, v) ∷ m) h =
    let rest =
      All-imp (IsLobbyOf m) (IsLobbyOf ((k, v) ∷ m)) (lobby_rows m) (IsLobbyOf-cons k v m h.0)
        (lobby_rows-IsLobbyOf m h.1) in
    elim (Bool-cases (nat_eq v.started_at_unix 0)) [
      | inl e ↦ rw e ((v, ground (arith, ==_refl k), eq_of_== v.started_at_unix 0 e, refl), rest)
      | inr e ↦ rw e rest
    ]

lobby_rows_mem :
    (id : String) (room : MatchRoom) (m : HashMap String MatchRoom)
    → lookup id m ≡ some room
    → room.started_at_unix ≡ 0
    → Mem (room_summary (id, room)) (lobby_rows m)
unfolding lookup lobby_rows
lobby_rows_mem id room [] l z = absurd (ground arith)
lobby_rows_mem id room ((k, v) ∷ m) l z = elim (Bool-cases (k == id)) [
  | inl e ↦ let same : v ≡ room = ground arith in rw (same, z, eq_of_== k id e) mem-cons_self
  | inr e ↦
      let rest = lobby_rows_mem id room m (rw e at l) z in
      elim (Bool-cases (nat_eq v.started_at_unix 0)) [
        | inl x ↦ rw x (mem-cons_of_mem (room_summary (k, v)) rest)
        | inr x ↦ rw x rest
      ]
]

-- The first row with an id.
abbrev pub row_of : String → List RoomSummary → Option RoomSummary
row_of id [] = none
row_of id (r ∷ rows) = let later = row_of id rows in if r.match_id == id then some r else later

row_of-some :
    (P : RoomSummary → Type 0) (id : String) (rows : List RoomSummary) (r : RoomSummary)
    → All P rows
    → row_of id rows ≡ some r
    → P r × (r.match_id ≡ id)
row_of-some P id [] r h e = absurd (ground arith)
row_of-some P id (q ∷ rows) r h e = elim (Bool-cases (q.match_id == id)) [
  | inl x ↦
      let same : q ≡ r = ground arith in (subst P same h.0, rw (← same) (eq_of_== q.match_id id x))
  | inr x ↦ row_of-some P id rows r h.1 (ground arith)
]

row_of-none :
    (id : String) (rows : List RoomSummary) (r : RoomSummary)
    → row_of id rows ≡ none
    → Mem r rows
    → r.match_id ≢ id
row_of-none id [] r e m = absurd (not-mem-nil m)
row_of-none id (q ∷ rows) r e m = elim (Bool-cases (q.match_id == id)) [
  | inl x ↦ absurd (ground arith)
  | inr x ↦ λ same.
      Or.elim ⊥_prop (mem-cons.0 m) (λ h. absurd (ground (arith, ==_of_eq r.match_id id same)))
        (λ h. row_of-none id rows r (ground arith) h same)
]

-- Every room that has not started is listed, with its summary.
list_rooms_mem :
    (core : CoreState) (id : String) (room : MatchRoom)
    → lookup id core.matches ≡ some room
    → room.started_at_unix ≡ 0
    → Mem (room_summary (id, room)) (list_rooms core)
unfolding list_rooms lobby_rows
list_rooms_mem core id room l z =
    (Perm.mem_iff (sort_by-perm (λ r. r.match_id) (lobby_rows core.matches))).1
      (lobby_rows_mem id room core.matches l z)

list_rooms-IsLobbyOf :
    (core : CoreState) → IsMap core.matches → All (IsLobbyOf core.matches) (list_rooms core)
unfolding list_rooms lobby_rows
list_rooms-IsLobbyOf core h =
    All-sort_by (λ r. r.match_id) (IsLobbyOf core.matches) (lobby_rows core.matches)
      (lobby_rows-IsLobbyOf core.matches h)

list_rooms-Nodup :
    (core : CoreState)
    → IsMap core.matches
    → Nodup (map (λ (r : RoomSummary). r.match_id) (list_rooms core))
unfolding list_rooms
list_rooms-Nodup core h =
    let is_open = λ (room : MatchRoom). nat_eq room.started_at_unix 0 in
    let lobbies = filter (λ (e : String × MatchRoom). is_open e.1) core.matches in
    let key = λ (r : RoomSummary). r.match_id in
    let keys : Nodup (map (λ e. key (room_summary e)) lobbies) =
      rw (filter-eq-retain is_open core.matches)
        (IsMap-Nodup (retain is_open core.matches) (retain-IsMap is_open core.matches h)) in
    Perm.nodup (Perm.symm (Perm.map key (sort_by-perm key (map room_summary lobbies))))
      (rw (map-map key room_summary lobbies) keys)

-- No row is shown for an id without a lobby.
row_of-no_lobby :
    (core : CoreState) (id : String)
    → IsMap core.matches
    → ((room : MatchRoom) → lookup id core.matches ≡ some room → room.started_at_unix ≢ 0)
    → row_of id (list_rooms core) ≡ none
row_of-no_lobby core id h started = elim (Option-cases (row_of id (list_rooms core))) [
  | inl e ↦ e
  | inr (r, e) ↦
      let ((room, l, z, s), same) =
        row_of-some (IsLobbyOf core.matches) id (list_rooms core) r (list_rooms-IsLobbyOf core h)
          e in
      absurd (started room (rw same at l) z)
]

lobby_row :
    (m : HashMap String MatchRoom) (r : RoomSummary) (id : String) (room room' : MatchRoom)
    → lookup r.match_id m ≡ some room'
    → r ≡ room_summary (r.match_id, room')
    → r.match_id ≡ id
    → lookup id m ≡ some room
    → r ≡ room_summary (id, room)
lobby_row m r id room room' l' s same l =
    let here : lookup id m ≡ some room' = subst (λ x. lookup x m ≡ some room') same l' in
    let one : room' ≡ room = ground arith in
    s
    ∙ ap (λ (x : String). room_summary (x, room')) same
    ∙ ap (λ (x : MatchRoom). room_summary (id, x)) one

row_of-lobby :
    (core : CoreState) (id : String) (room : MatchRoom)
    → IsMap core.matches
    → lookup id core.matches ≡ some room
    → room.started_at_unix ≡ 0
    → row_of id (list_rooms core) ≡ some (room_summary (id, room))
row_of-lobby core id room h l z = elim (Option-cases (row_of id (list_rooms core))) [
  | inl e ↦ absurd (
      row_of-none id (list_rooms core) (room_summary (id, room)) e (list_rooms_mem core id room l z)
        refl)
  | inr (r, e) ↦
      let ((room', l', z', s), same) =
        row_of-some (IsLobbyOf core.matches) id (list_rooms core) r (list_rooms-IsLobbyOf core h)
          e in
      e ∙ ap some (lobby_row core.matches r id room room' l' s same l)
]

-- The listing is in the order of the match ids and lists no id twice, and its row of any id is the
-- summary of the match with that id, if there is one and it has not started, and else there is none.
pub list_rooms_lem :
    (core : CoreState) (id : String)
    → IsMap core.matches
    → let rows = list_rooms core in
      IsSorted (λ (r : RoomSummary). r.match_id) rows
      × Nodup (map (λ (r : RoomSummary). r.match_id) rows)
      × (row_of id rows ≡ elim (lookup id core.matches) [
        | none ↦ none
        | some room ↦ if nat_eq room.started_at_unix 0 then some (room_summary (id, room)) else none
      ])
unfolding lobby_rows
list_rooms_lem core id h = (
  unfold list_rooms in sort_by-IsSorted (λ r. r.match_id) (lobby_rows core.matches),
  list_rooms-Nodup core h,
  elim (Option-cases (lookup id core.matches)) [
    | inl e ↦ rw e (row_of-no_lobby core id h (λ room l. absurd (ground arith)))
    | inr (room, e) ↦ elim (Bool-cases (nat_eq room.started_at_unix 0)) [
      | inl z ↦ rw (e, z) (row_of-lobby core id room h e (eq_of_== room.started_at_unix 0 z))
      | inr z ↦ rw (e, z) (row_of-no_lobby core id h (λ room' l q. absurd (ground arith)))
    ]
  ],
)
