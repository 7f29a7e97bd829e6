-- ===== src/RemoteRtt/Main.antt =====
-- `main` of remote-rtt. The HTTP client, the sockets and floating point arithmetic are interfaces.
-- What is printed before the measurement is left out. `rounds` is what the two joined sockets do in
-- each sample.
use kotatsu_backend.Prelude.{
  ℕ, String, Bool, true, false, List, [], ◌∷◌, Option, none, some, Result, ok, err, map_err,
}
use kotatsu_backend.Prelude.Order.{Order}
use kotatsu_backend.TestClient.Messages.{JoinMatchRes, ClientDatagram, ServerDatagram}
use kotatsu_backend.TestClient.Connect.{Network, Received}
use kotatsu_backend.RemoteRtt.Config.{Stop, concat, api_base, udp_override}
use kotatsu_backend.RemoteRtt.CommandLine.{◌>>=◌, parse_config}
use kotatsu_backend.RemoteRtt.Join.{
  ClientReliable, ServerReliable, ConnectedClient, JoinError, connect_and_join,
}
use kotatsu_backend.RemoteRtt.Measure.{Round, MeasureError, encoded_pos, measure_datagram_one_way}
use kotatsu_backend.RemoteRtt.Summary.{Float, Printed, print_summary}

-- The HTTP client: whether it can be built, the match id that a creation at a URL answers with, and
-- the ticket that a join at a URL under a name answers with. `none` is any failure on the way.
pub record Http : Type 0 where
  pub builds : Bool
  pub post_create : String → Option String
  pub post_join : String → String → Option JoinMatchRes

-- The socket of one client: whether it sends the join, and what it receives then.
pub record JoinSocket : Type 0 where
  pub accepted : Bool
  pub received : List Received

pub data MainError : Type 0 where
  not_configured : Stop → MainError
  http_failed : MainError
  not_joined : JoinError → MainError
  not_measured : MeasureError → MainError
  panicked : MainError

abbrev or_fail : {A : Type 0} → Option A → MainError → Result A MainError
or_fail none e = err e
or_fail (some a) e = ok a

abbrev built : Bool → Result (Unit {0}) MainError
built false = err MainError.http_failed
built true = ok tt

abbrev pub join_url : String → String → String
join_url api match_id = concat (api ∷ "/v1/matches/" ∷ match_id ∷ "/join" ∷ [])

abbrev pub create_url : String → String
create_url api = concat (api ∷ "/v1/matches" ∷ [])

module _ {F32 F64 : Type 0} ⦃total_cmp : Order F64⦄ (float : Float F64) (f32_of_u64 : ℕ → F32)
    (f32_zero : F32) (read_reliable : List ℕ → Option ServerReliable)
    (write_reliable : ClientReliable → Option (List ℕ))
    (read_datagram : List ℕ → Option (ServerDatagram F32))
    (write_datagram : ClientDatagram F32 → Option (List ℕ)) (http : Http) (net : Network)
    (socket_a socket_b : JoinSocket) (rounds : ℕ → Round F64) where
  -- The addresses of the tickets are never used: an override is always given.
  abbrev pub connect : String → JoinSocket → JoinMatchRes → Result ConnectedClient JoinError
  connect udp_override_url socket ticket =
      (connect_and_join read_reliable write_reliable net ticket (some udp_override_url)
        socket.accepted socket.received).0

  unfoldable pub main : (String → Option String) → List String → Result (Printed F64) MainError
  main var args = do
    config ← map_err MainError.not_configured (parse_config var args)
    let api = api_base config
    let udp = udp_override config
    _ ← built http.builds
    match_id ← or_fail (http.post_create (create_url api)) MainError.http_failed
    join_a ← or_fail (http.post_join (join_url api match_id) "rtt-a") MainError.http_failed
    join_b ← or_fail (http.post_join (join_url api match_id) "rtt-b") MainError.http_failed
    initiator ← map_err MainError.not_joined (connect udp socket_a join_a)
    receiver ← map_err MainError.not_joined (connect udp socket_b join_b)
    stats ← map_err MainError.not_measured (
        measure_datagram_one_way read_datagram initiator.player_id
          (encoded_pos f32_of_u64 f32_zero write_datagram) rounds config.samples)
    or_fail (print_summary float config.samples stats) MainError.panicked
