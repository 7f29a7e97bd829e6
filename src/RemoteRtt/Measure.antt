-- ===== src/RemoteRtt/Measure.antt =====
-- The measurement of remote-rtt: a datagram for each sample, and the wait for it at the other
-- client. Of the clock the model takes the elapsed time that it shows when a packet comes in.
use kotatsu_backend.Prelude.{
  ℕ, ℕ_eq, zero, suc, ◌+◌, String, String_eq, Bool, true, false, ◌&&◌, List, [], ◌∷◌, ◌++◌, Option,
  none, some, Result, ok, err, if◌then◌else◌, ◌==◌,
}
use kotatsu_backend.Realtime.Broadcast.{pkt_unreliable}
use kotatsu_backend.TestClient.{encode_packet, parse_datagram}
use kotatsu_backend.TestClient.Messages.{ClientDatagram, ServerDatagram}

-- The datagrams of the two tools are declared alike.
module _ {F32 : Type 0} (f32_of_u64 : ℕ → F32) (f32_zero : F32)
    (write : ClientDatagram F32 → Option (List ℕ)) where
  unfoldable pub encoded_pos : ℕ → Option (List ℕ)
  encoded_pos seq =
      encode_packet pkt_unreliable
        (write (ClientDatagram.pos seq (f32_of_u64 seq) f32_zero f32_zero f32_zero))

-- What the receiver's socket gives before the time is up.
pub data Arrival (F64 : Type 0) : Type 0 where
  arrived : List ℕ → F64 → Arrival F64
  read_failed : Arrival F64

-- Whether the probe can be sent, and what comes in before the time is up.
pub record Round (F64 : Type 0) : Type 0 where
  pub sends : Bool
  pub arrivals : List (Arrival F64)

pub record SampleStats (F64 : Type 0) : Type 0 where
  pub delivered : List F64
  pub lost : ℕ

pub data MeasureError : Type 0 where
  json_failed send_failed read_failed : MeasureError

module _ {F32 : Type 0} (read : List ℕ → Option (ServerDatagram F32)) (initiator : String) where
  -- The packet is the position of the initiator with this number.
  unfoldable pub is_probe : ℕ → List ℕ → Bool
  is_probe seq packet = elim (parse_datagram read packet) [
    | none ↦ false
    | some msg ↦ elim msg [
      | ServerDatagram.pos player_id received_seq x y vx vy now_ms ↦
          player_id == initiator && received_seq == seq
    ]
  ]

abbrev pub record_sample : {F64 : Type 0} → Option F64 → SampleStats F64 → SampleStats F64
record_sample none stats = record stats { lost = stats.lost + 1 }
record_sample (some one_way_ms) stats = record stats {
  delivered = stats.delivered ++ one_way_ms ∷ [];
}

module _ {F32 F64 : Type 0} (read : List ℕ → Option (ServerDatagram F32)) (initiator : String) where
  -- The inner loop: `none` is that the time is up first.
  unfoldable pub listen : ℕ → List (Arrival F64) → Result (Option F64) MeasureError
  listen seq [] = ok none
  listen seq (Arrival.read_failed ∷ rest) = err MeasureError.read_failed
  listen seq (Arrival.arrived packet elapsed ∷ rest) =
      let later = listen seq rest in
      if is_probe read initiator seq packet then ok (some elapsed) else later

  module _ (payload : ℕ → Option (List ℕ)) (rounds : ℕ → Round F64) where
    -- One sample: the probe is made, sent, and waited for.
    unfoldable pub measure_one : ℕ → Result (Option F64) MeasureError
    measure_one seq = elim (payload seq) [
      | none ↦ err MeasureError.json_failed
      | some bytes ↦ elim (rounds seq).sends [
        | false ↦ err MeasureError.send_failed
        | true ↦ listen seq (rounds seq).arrivals
      ]
    ]

    -- The samples that are left, from a number on.
    unfoldable pub measure_from : ℕ → ℕ → SampleStats F64 → Result (SampleStats F64) MeasureError
    measure_from zero seq stats = ok stats
    measure_from (suc left) seq stats = elim (measure_one seq) [
      | err e ↦ err e
      | ok received ↦ measure_from left (suc seq) (record_sample received stats)
    ]

    unfoldable pub measure_datagram_one_way : ℕ → Result (SampleStats F64) MeasureError
    measure_datagram_one_way samples = measure_from samples 1 (record { delivered = []; lost = 0 })
