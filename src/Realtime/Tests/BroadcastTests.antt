-- ===== src/Realtime/Tests/BroadcastTests.antt =====
-- Tests of Broadcast and of the listings.
use mathlib.Core.List.{Mem, Nodup}
use kotatsu_backend.Prelude.{
  ℕ_eq, ◌≡◌, refl, String_eq, List, [], ◌∷◌, map, arith, All, some, ==_of_eq,
}
use kotatsu_backend.Prelude.Order.{String_order}
use kotatsu_backend.HashMap.{lookup}
use kotatsu_backend.Sort.{IsSorted}
use kotatsu_backend.Realtime.Types.{SocketAddr}
use kotatsu_backend.Realtime.Broadcast.{broadcast_datagram_udp}
use kotatsu_backend.Realtime.Broadcast.Datagrams.{IsOther, broadcast_datagram_udp_lem}
use kotatsu_backend.Realtime.Status.{RoomSummary}
use kotatsu_backend.Realtime.ControlPlane.{list_rooms, room_summary}
use kotatsu_backend.Realtime.ControlPlane.Listing.{list_rooms_lem, row_of}
use kotatsu_backend.Realtime.Samples.{core, server, lobby, bob}

broadcast_datagram_udp_example :
    let s' = broadcast_datagram_udp "m_1" "p_a" (5 ∷ []) server in
    (addrs : List SocketAddr) × (s'
      ≡ record server { sent = map (λ a. record { dest = a; bytes = 2 ∷ 5 ∷ [] }) addrs })
    × Mem 7002 addrs
    × All (IsOther lobby.players "p_a") addrs
unfolding lookup
broadcast_datagram_udp_example =
    broadcast_datagram_udp_lem "m_1" "p_a" (5 ∷ []) server lobby "p_b" bob 7002 refl
      (refl, (refl, tt)) refl refl (λ q. absurd (ground (arith, ==_of_eq "p_b" "p_a" q)))

list_rooms_example :
    let rows = list_rooms core in
    IsSorted (λ (r : RoomSummary). r.match_id) rows
    × Nodup (map (λ (r : RoomSummary). r.match_id) rows)
    × (row_of "m_1" rows ≡ some (room_summary ("m_1", lobby)))
unfolding lookup
list_rooms_example = list_rooms_lem core "m_1" (refl, (refl, tt))
