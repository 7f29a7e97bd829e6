-- ===== src/RemoteRtt/Join.antt =====
-- How remote-rtt joins a match over UDP. The JSON library is two arguments: what it makes of a
-- message of the server, and of the join.
use kotatsu_backend.Prelude.{
  ℕ, String, String_eq, Bool, true, false, List, [], ◌∷◌, Option, none, some, Result, ok, err,
  if◌then◌else◌, ◌==◌,
}
use kotatsu_backend.Realtime.Types.{SocketAddr}
use kotatsu_backend.Realtime.State.{Packet}
use kotatsu_backend.Realtime.Broadcast.{pkt_reliable}
use kotatsu_backend.Realtime.Layout.{unwrap_or}
use kotatsu_backend.TestClient.{encode_packet, parse_reliable}
use kotatsu_backend.TestClient.Messages.{JoinMatchRes}
use kotatsu_backend.TestClient.Connect.{Received, Network, ConnectError, connect_udp_socket}

pub data ClientReliable : Type 0 where
  join : String → ClientReliable

pub data ServerReliable : Type 0 where
  join_ok : String → String → ℕ → ServerReliable
  match_started : String → ℕ → ℕ → ServerReliable
  error : String → String → ServerReliable

pub record ConnectedClient : Type 0 where
  pub player_id : String
  pub socket : SocketAddr

pub data JoinError : Type 0 where
  connect : ConnectError → JoinError
  json_failed send_failed recv_failed timed_out : JoinError
  unexpected_player_id : String → String → JoinError
  join_failed : String → String → JoinError

module _ (read : List ℕ → Option ServerReliable) (player_id : String) where
  -- What the loop makes of one packet: `none` is to go on.
  unfoldable pub join_response : List ℕ → Option (Result (Unit {0}) JoinError)
  join_response bytes = elim (parse_reliable read bytes) [
    | none ↦ none
    | some msg ↦ elim msg [
      | ServerReliable.join_ok match_id got now_ms ↦
          if got == player_id
          then some (ok tt)
          else some (err (JoinError.unexpected_player_id player_id got))
      | ServerReliable.error code message ↦ some (err (JoinError.join_failed code message))
      | ServerReliable.match_started match_id started_at now_ms ↦ none
    ]
  ]

  -- The loop. Where the list ends nothing more comes in time.
  unfoldable pub await_join : List Received → Result (Unit {0}) JoinError
  await_join [] = err JoinError.timed_out
  await_join (Received.recv_failed ∷ rest) = err JoinError.recv_failed
  await_join (Received.packet bytes ∷ rest) = elim (join_response bytes) [
    | none ↦ await_join rest
    | some result ↦ result
  ]

-- The packet sent to the server is part of the result. The Boolean is whether the socket accepts it.
module _ (read : List ℕ → Option ServerReliable) (write : ClientReliable → Option (List ℕ))
    (net : Network) where
  unfoldable pub connect_and_join :
      JoinMatchRes
      → Option String
      → Bool
      → List Received
      → Result ConnectedClient JoinError × List Packet
  connect_and_join ticket udp_override_url accepted received =
      elim (connect_udp_socket net (unwrap_or udp_override_url ticket.udp_url)) [
        | err e ↦ (err (JoinError.connect e), [])
        | ok addr ↦ elim (encode_packet pkt_reliable (write (ClientReliable.join ticket.token))) [
          | none ↦ (err JoinError.json_failed, [])
          | some bytes ↦ elim accepted [
            | false ↦ (err JoinError.send_failed, [])
            | true ↦ (
              elim (await_join read ticket.player_id received) [
                | ok _ ↦ ok (record { player_id = ticket.player_id; socket = addr })
                | err e ↦ err e
              ],
              record { dest = addr; bytes = bytes } ∷ [],
            )
          ]
        ]
      ]
