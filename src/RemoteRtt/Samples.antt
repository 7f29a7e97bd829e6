-- ===== src/RemoteRtt/Samples.antt =====
-- What a measurement of remote-rtt reports of what comes in.
use kotatsu_backend.Prelude.{
  ℕ, zero, suc, ◌+◌, ◌≡◌, ◌≢◌, refl, String, true, List, [], ◌∷◌, ◌++◌, Option, none, some, ok,
  if◌then◌else◌, arith, All, filter_map, length, get_elem?, inl, inr, Bool-cases, Option-cases,
}
use mathlib.Core.List.{append_assoc, append-nil}
use kotatsu_backend.Realtime.Layout.{range}
use kotatsu_backend.TestClient.Messages.{ServerDatagram}
use kotatsu_backend.RemoteRtt.Measure.{
  Arrival, Round, SampleStats, is_probe, listen, record_sample, measure_one, measure_from,
  measure_datagram_one_way,
}

-- Nothing fails in the round of a sample.
abbrev pub IsQuiet : {F64 : Type 0} → (ℕ → Option (List ℕ)) → (ℕ → Round F64) → ℕ → Type 0
IsQuiet payload rounds seq =
    (payload seq ≢ none)
    × ((rounds seq).sends ≡ true)
    × All (λ a. a ≢ Arrival.read_failed) (rounds seq).arrivals

module _ {F32 F64 : Type 0} (read : List ℕ → Option (ServerDatagram F32)) (initiator : String) where
  -- The elapsed time where the packet is the probe.
  abbrev pub time_of_probe : ℕ → Arrival F64 → Option F64
  time_of_probe seq Arrival.read_failed = none
  time_of_probe seq (Arrival.arrived packet elapsed) =
      if is_probe read initiator seq packet then some elapsed else none

  -- The times of the first probe among what comes in.
  abbrev pub heard : (ℕ → Round F64) → ℕ → Option F64
  heard rounds seq = get_elem? (filter_map (time_of_probe seq) (rounds seq).arrivals) 0

  listen_lem :
      (seq : ℕ) (arrivals : List (Arrival F64))
      → All (λ a. a ≢ Arrival.read_failed) arrivals
      → listen read initiator seq arrivals
        ≡ ok (get_elem? (filter_map (time_of_probe seq) arrivals) 0)
  unfolding listen
  listen_lem seq [] h = refl
  listen_lem seq (Arrival.read_failed ∷ rest) h = absurd (h.0 refl)
  listen_lem seq (Arrival.arrived packet elapsed ∷ rest) h =
      elim (Bool-cases (is_probe read initiator seq packet)) [
        | inl e ↦ rw (e, listen, filter_map) refl
        | inr e ↦ rw (e, listen, filter_map) (listen_lem seq rest h.1)
      ]

  module _ (payload : ℕ → Option (List ℕ)) (rounds : ℕ → Round F64) where
    measure_one_lem :
        (seq : ℕ)
        → IsQuiet payload rounds seq
        → measure_one read initiator payload rounds seq ≡ ok (heard rounds seq)
    unfolding measure_one
    measure_one_lem seq (written, sends, quiet) = elim (Option-cases (payload seq)) [
      | inl e ↦ absurd (written e)
      | inr (bytes, e) ↦ rw (e, sends, measure_one) (listen_lem seq (rounds seq).arrivals quiet)
    ]

    measure_from_lem :
        (left seq : ℕ) (stats : SampleStats F64)
        → All (IsQuiet payload rounds) (range seq left)
        → (lost : ℕ) × (measure_from read initiator payload rounds left seq stats
            ≡ ok (record {
              delivered = stats.delivered ++ filter_map (heard rounds) (range seq left);
              lost = stats.lost + lost;
            }))
          × (length (filter_map (heard rounds) (range seq left)) + lost ≡ left)
    unfolding measure_from
    measure_from_lem zero seq stats h = (0, ground (arith, append-nil stats.delivered), omega arith)
    measure_from_lem (suc left) seq stats (quiet, h) = elim (Option-cases (heard rounds seq)) [
      | inl e ↦
          let (lost, run, total) = measure_from_lem left (suc seq) (record_sample none stats) h in
          (
            suc lost,
            rw (measure_one_lem seq quiet, e, measure_from, filter_map) (ground arith),
            rw (e, filter_map) (omega (arith, total)),
          )
      | inr (elapsed, e) ↦
          let (lost, run, total) =
            measure_from_lem left (suc seq) (record_sample (some elapsed) stats) h in
          let rest = filter_map (heard rounds) (range (suc seq) left) in
          (
            lost,
            rw (measure_one_lem seq quiet, e, measure_from, filter_map)
                (ground (arith, append_assoc stats.delivered (elapsed ∷ []) rest)),
            rw (e, filter_map) (omega (arith, total)),
          )
    ]

    -- Where every probe is made and sent and no read fails, the measurement ends well: it has the
    -- time of the first probe that came in for each number, in order, and counts a lost sample for
    -- each number whose probe did not come in, so that the two together are the samples asked for.
    pub measure_datagram_one_way_lem :
        (samples : ℕ)
        → All (IsQuiet payload rounds) (range 1 samples)
        → (stats : SampleStats F64) × (measure_datagram_one_way read initiator payload rounds
              samples
            ≡ ok stats)
          × (stats.delivered ≡ filter_map (heard rounds) (range 1 samples))
          × (length stats.delivered + stats.lost ≡ samples)
    unfolding measure_datagram_one_way
    measure_datagram_one_way_lem samples h =
        let (lost, run, total) =
          measure_from_lem samples 1 (record { delivered = []; lost = 0 }) h in
        (
          record { delivered = filter_map (heard rounds) (range 1 samples); lost = 0 + lost },
          run,
          refl,
          omega (arith, total),
        )
