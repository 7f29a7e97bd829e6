-- ===== src/RemoteRtt/Totals.antt =====
-- A whole run of remote-rtt, from its settings to what it prints.
use kotatsu_backend.Prelude.{
  ℕ, ◌+◌, length, ◌≡◌, ◌≤◌, refl, ◌∙◌, String, true, List, Option, some, ok, arith, All,
}
use kotatsu_backend.Prelude.Order.{Order}
use kotatsu_backend.Realtime.Layout.{range}
use kotatsu_backend.TestClient.Messages.{JoinMatchRes, ClientDatagram, ServerDatagram}
use kotatsu_backend.TestClient.Connect.{Network}
use kotatsu_backend.RemoteRtt.Config.{Config, api_base, udp_override}
use kotatsu_backend.RemoteRtt.CommandLine.{parse_config}
use kotatsu_backend.RemoteRtt.Join.{ClientReliable, ServerReliable, ConnectedClient}
use kotatsu_backend.RemoteRtt.Measure.{Round, SampleStats, encoded_pos}
use kotatsu_backend.RemoteRtt.Samples.{IsQuiet, measure_datagram_one_way_lem}
use kotatsu_backend.RemoteRtt.Summary.{Float, Printed}
use kotatsu_backend.RemoteRtt.Reports.{IsPrintedOf, print_summary_lem}
use kotatsu_backend.RemoteRtt.Main.{Http, JoinSocket, create_url, join_url, connect, main}

-- The number of samples that the printed text speaks of, and how many of them it calls lost.
abbrev pub printed_total : {F64 : Type 0} → Printed F64 → ℕ
printed_total (Printed.no_samples samples lost) = lost
printed_total (Printed.summary report) = report.total

printed_total_lem :
    {F64 : Type 0} ⦃total_cmp : Order F64⦄ (samples : ℕ) (stats : SampleStats F64)
    (printed : Printed F64)
    → IsPrintedOf samples stats printed
    → printed_total printed ≡ length stats.delivered + stats.lost
printed_total_lem samples stats (Printed.no_samples n lost) h =
    let none_delivered : length stats.delivered ≡ 0 = rw h.0 refl in let same = h.2 in ground arith
printed_total_lem samples stats (Printed.summary report) h = h.2

-- If 95 percent of a count, rounded, is at most the count, the settings are accepted, the API creates
-- a match and gives two tickets, both clients join, and nothing fails in the rounds of the samples
-- that were asked for, then a run of the tool ends well, and what it prints accounts for
-- just these samples, as delivered or as lost.
pub main_lem :
    {F32 F64 : Type 0} ⦃total_cmp : Order F64⦄ (float : Float F64) (f32_of_u64 : ℕ → F32) (z : F32)
    (read_reliable : List ℕ → Option ServerReliable)
    (write_reliable : ClientReliable → Option (List ℕ))
    (read_datagram : List ℕ → Option (ServerDatagram F32))
    (write_datagram : ClientDatagram F32 → Option (List ℕ)) (http : Http) (net : Network)
    (socket_a socket_b : JoinSocket) (rounds : ℕ → Round F64) (var : String → Option String)
    (args : List String) (config : Config) (match_id : String) (join_a join_b : JoinMatchRes)
    (initiator receiver : ConnectedClient)
    → ((n : ℕ) → float.round_95_percent n ≤ n)
    → parse_config var args ≡ ok config
    → http.builds ≡ true
    → let api = api_base config in
      http.post_create (create_url api) ≡ some match_id
      → http.post_join (join_url api match_id) "rtt-a" ≡ some join_a
      → http.post_join (join_url api match_id) "rtt-b" ≡ some join_b
      → let connect_to =
          connect float f32_of_u64 z read_reliable write_reliable read_datagram write_datagram http
            net socket_a socket_b rounds
            (udp_override config) in
        connect_to socket_a join_a ≡ ok initiator
        → connect_to socket_b join_b ≡ ok receiver
        → All (IsQuiet (encoded_pos f32_of_u64 z write_datagram) rounds) (range 1 config.samples)
        → (printed : Printed F64) × (main float f32_of_u64 z read_reliable write_reliable
              read_datagram write_datagram http net socket_a socket_b rounds var args
            ≡ ok printed)
          × (printed_total printed ≡ config.samples)
unfolding main
main_lem float f32_of_u64 z read_reliable write_reliable read_datagram write_datagram http net
      socket_a socket_b rounds var args config match_id join_a join_b initiator receiver round_le p
      b c ja jb ca cb quiet =
    let payload = encoded_pos f32_of_u64 z write_datagram in
    let (stats, measured, times, total) =
      measure_datagram_one_way_lem read_datagram initiator.player_id payload rounds config.samples
        quiet in
    let (printed, shown, fair) = print_summary_lem float round_le config.samples stats in
    (
      printed,
      rw (p, main, b, c, ja, jb, ca, cb, measured, shown) refl,
      printed_total_lem config.samples stats printed fair ∙ total,
    )
