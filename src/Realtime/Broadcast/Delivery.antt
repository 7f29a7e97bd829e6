-- ===== src/Realtime/Broadcast/Delivery.antt =====
-- Who gets what of a broadcast.
use mathlib.Core.Option
use kotatsu_backend.Prelude.{
  ℕ_eq, ◌≡◌, refl, ◌∙◌, String, String_eq, List, [], ◌∷◌, ◌++◌, arith, inl, inr, Option-cases, ◌==◌,
  if◌then◌else◌,
}
use mathlib.Core.List.{append-nil, append_assoc}
use kotatsu_backend.HashMap.{lookup, lookup-insert}
use kotatsu_backend.Realtime.Types.{ServerReliable, ChannelId}
use kotatsu_backend.Realtime.State.{Server, Channels, send, send_all}
use kotatsu_backend.Realtime.Broadcast.{senders, broadcast_reliable_udp}

-- As many copies of a message as a list names the channel.
abbrev pub copies : ChannelId → ServerReliable → List ChannelId → List ServerReliable
copies ch msg [] = []
copies ch msg (tx ∷ txs) = let rest = copies ch msg txs in if tx == ch then msg ∷ rest else rest

lookup-send :
    (tx ch : ChannelId) (msg : ServerReliable) (channels : Channels)
    → lookup ch (send tx msg channels)
      ≡ Option.map (λ queue. if tx == ch then queue ++ msg ∷ [] else queue) (lookup ch channels)
unfolding send
lookup-send tx ch msg channels = elim (Option-cases (lookup tx channels)) [
  | inl e ↦ elim (Option-cases (lookup ch channels)) [
    | inl e' ↦ ground arith
    | inr (q', e') ↦ ground (arith, ℕ_eq.beq_iff tx ch)
  ]
  | inr (q, e) ↦ elim (Option-cases (lookup ch channels)) [
    | inl e' ↦ ground (arith, lookup-insert tx ch (q ++ msg ∷ []) channels, ℕ_eq.beq_iff tx ch)
    | inr (q', e') ↦
        ground (arith, lookup-insert tx ch (q ++ msg ∷ []) channels, ℕ_eq.beq_iff tx ch)
  ]
]

pub lookup-send_all :
    (txs : List ChannelId) (ch : ChannelId) (msg : ServerReliable) (channels : Channels)
    → lookup ch (send_all txs msg channels)
      ≡ Option.map (λ queue. queue ++ copies ch msg txs) (lookup ch channels)
unfolding send_all
lookup-send_all [] ch msg channels = elim (Option-cases (lookup ch channels)) [
  | inl e ↦ rw e
  | inr (q, e) ↦ rw (e, append-nil)
]
lookup-send_all (tx ∷ txs) ch msg channels =
    lookup-send_all txs ch msg (send tx msg channels) ∙ elim (Option-cases (lookup ch channels)) [
      | inl e ↦ ground (arith, lookup-send tx ch msg channels)
      | inr (q, e) ↦
          ground
            (arith, lookup-send tx ch msg channels, append_assoc q (msg ∷ []) (copies ch msg txs))
    ]

-- A broadcast adds the message at the end of each waiting queue, once for each player of the room
-- whose sender leads there, and so leaves every other queue alone; the rest of the state stays.
pub broadcast_reliable_udp_lem :
    (match_id : String) (msg : ServerReliable) (ch : ChannelId) (s : Server)
    → let s' = broadcast_reliable_udp match_id msg s in
      (lookup ch s'.channels
        ≡ Option.map (λ queue. queue ++ copies ch msg (senders match_id s)) (lookup ch s.channels))
      × (s' ≡ record s { channels = s'.channels })
unfolding broadcast_reliable_udp
broadcast_reliable_udp_lem match_id msg ch s =
    (lookup-send_all (senders match_id s) ch msg s.channels, refl)
