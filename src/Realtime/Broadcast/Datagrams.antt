-- ===== src/Realtime/Broadcast/Datagrams.antt =====
-- To whom the datagrams of a room are sent on.
use mathlib.Core.List.{Mem, mem-cons_self, mem-cons_of_mem}
use kotatsu_backend.Prelude.{
  ℕ, ℕ_eq, ◌≡◌, ◌≢◌, sym, ◌∙◌, String, String_eq, List, [], ◌∷◌, ◌++◌, map, filter_map, Option,
  none, some, arith, inl, inr, Option-cases, Bool-cases, ◌==◌, if◌then◌else◌, All, All-imp,
  ==_of_ne, ==_of_eq, ==_refl, eq_of_==,
}
use kotatsu_backend.HashMap.{HashMap, lookup, IsMap}
use kotatsu_backend.Realtime.Types.{SocketAddr, PlayerConnection, PlayerHandle, MatchRoom, udp}
use kotatsu_backend.Realtime.State.{Server}
use kotatsu_backend.Realtime.Broadcast.{other_addrs, broadcast_datagram_udp, udp_addr}

-- The players whose datagrams go elsewhere: none, or the sender.
abbrev others : String → String × PlayerHandle → Option SocketAddr
others sender e = if e.0 == sender then none else udp_addr e.1

-- The address is that of a player of the room other than the sender.
abbrev pub IsOther : HashMap String PlayerHandle → String → SocketAddr → Type 0
IsOther players sender addr =
    (id : String) × (p : PlayerHandle) × (lookup id players ≡ some p)
    × (p.connection ≡ some (udp addr))
    × (id ≢ sender)

udp_addr-eq_some :
    (c : Option PlayerConnection) (a : SocketAddr)
    → elim c [ none ↦ none | some u ↦ elim u [ udp addr ↦ some addr ] ] ≡ some a
    → c ≡ some (udp a)
udp_addr-eq_some none a h = absurd (ground arith)
udp_addr-eq_some (some (udp b)) a h = ground arith

others-eq_some :
    (sender k : String) (p : PlayerHandle) (a : SocketAddr)
    → others sender (k, p) ≡ some a
    → (p.connection ≡ some (udp a)) × (k ≢ sender)
others-eq_some sender k p a h = elim (Bool-cases (k == sender)) [
  | inl e ↦ absurd (ground arith)
  | inr e ↦ (udp_addr-eq_some p.connection a (rw e at h), λ q. ground (arith, ==_of_eq k sender q))
]

-- A player of the rest of a map is one of the whole.
IsOther-cons :
    (sender k : String) (p : PlayerHandle) (m : HashMap String PlayerHandle)
    → lookup k m ≡ none
    → (addr : SocketAddr) → IsOther m sender addr
    → IsOther ((k, p) ∷ m) sender addr
unfolding lookup
IsOther-cons sender k p m h addr (id, q, l, c, n) =
    (id, q, ground (arith, String_eq.beq_iff k id), c, n)

filter_map-IsOther :
    (sender : String) (players : HashMap String PlayerHandle)
    → IsMap players
    → All (IsOther players sender) (filter_map (others sender) players)
unfolding lookup
filter_map-IsOther sender [] h = tt
filter_map-IsOther sender ((k, p) ∷ m) h =
    let rest =
      All-imp (IsOther m sender) (IsOther ((k, p) ∷ m) sender) (filter_map (others sender) m)
        (IsOther-cons sender k p m h.0) (filter_map-IsOther sender m h.1) in
    elim (Option-cases (others sender (k, p))) [
      | inl e ↦ rw (e, All, filter_map) rest
      | inr (a, e) ↦
          let (c, n) = others-eq_some sender k p a e in
          rw (e, All, filter_map) ((k, p, ground (arith, ==_refl k), c, n), rest)
    ]

-- Every other player of the room who has connected is among the addresses.
filter_map-others :
    (sender id : String) (p : PlayerHandle) (addr : SocketAddr)
    (players : HashMap String PlayerHandle)
    → lookup id players ≡ some p
    → p.connection ≡ some (udp addr)
    → id ≢ sender
    → Mem addr (filter_map (others sender) players)
unfolding lookup
filter_map-others sender id p addr [] l c n = absurd (ground arith)
filter_map-others sender id p addr ((k, q) ∷ m) l c n = elim (Bool-cases (k == id)) [
  | inl e ↦
      let same : q ≡ p = ground arith in
      let to : others sender (k, q) ≡ some addr =
        rw (==_of_ne k sender (λ x. n (sym (eq_of_== k id e) ∙ x)), same, c) in
      rw (to, filter_map) mem-cons_self
  | inr e ↦
      let rest = filter_map-others sender id p addr m (rw e at l) c n in
      elim (Option-cases (others sender (k, q))) [
        | inl x ↦ rw (x, filter_map) rest
        | inr (a, x) ↦ rw (x, filter_map) (mem-cons_of_mem a rest)
      ]
]

-- A datagram is sent on unchanged, as an unreliable packet: to every other player of the room who
-- has connected, and to no address but those of the room's other players. Nothing else changes.
pub broadcast_datagram_udp_lem :
    (match_id sender : String) (payload : List ℕ) (s : Server) (room : MatchRoom) (id : String)
    (p : PlayerHandle) (addr : SocketAddr)
    → lookup match_id s.core.matches ≡ some room
    → IsMap room.players
    → lookup id room.players ≡ some p
    → p.connection ≡ some (udp addr)
    → id ≢ sender
    → (addrs : List SocketAddr) × (broadcast_datagram_udp match_id sender payload s ≡ record s {
      sent = s.sent ++ map (λ a. record { dest = a; bytes = 0x02 ∷ payload }) addrs;
    })
      × Mem addr addrs
      × All (IsOther room.players sender) addrs
unfolding broadcast_datagram_udp
broadcast_datagram_udp_lem match_id sender payload s room id p addr e h l c n = (
  filter_map (others sender) room.players,
  rw (e, other_addrs),
  filter_map-others sender id p addr room.players l c n,
  filter_map-IsOther sender room.players h,
)
