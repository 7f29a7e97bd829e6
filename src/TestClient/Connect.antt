-- ===== src/TestClient/Connect.antt =====
-- `connect_udp_socket`, the same in test-client/src/main.rs and bin/remote-rtt.rs. The URL parser,
-- the resolver and the system's sockets are an interface.
use kotatsu_backend.Prelude.{
  ℕ, String, Bool, true, false, List, [], ◌∷◌, Option, none, some, Result, ok, err,
}
use kotatsu_backend.Realtime.Types.{SocketAddr}

-- What `Url::parse` gives of the host and the port.
pub record Url : Type 0 where
  pub host_str : Option String
  pub port : Option ℕ

-- The resolver's result is the addresses, or an error. The Booleans are whether a socket can be
-- bound and whether it can be connected.
pub record Network : Type 0 where
  pub parse_url : String → Option Url
  pub lookup_host : String → ℕ → Option (List SocketAddr)
  pub binds : Bool
  pub connects : SocketAddr → Bool

pub data ConnectError : Type 0 where
  parse_udp_url host_missing port_missing : ConnectError
  resolve_remote_host no_remote_addr : ConnectError
  bind_failed connect_failed : ConnectError

-- What `recv` gives, one after the other.
pub data Received : Type 0 where
  packet : List ℕ → Received
  recv_failed : Received

-- The socket is known by the address that it is connected to.
unfoldable pub connect_udp_socket : Network → String → Result SocketAddr ConnectError
connect_udp_socket net udp_url = elim (net.parse_url udp_url) [
  | none ↦ err ConnectError.parse_udp_url
  | some url ↦ elim url.host_str [
    | none ↦ err ConnectError.host_missing
    | some host ↦ elim url.port [
      | none ↦ err ConnectError.port_missing
      | some port ↦ elim (net.lookup_host host port) [
        | none ↦ err ConnectError.resolve_remote_host
        | some addrs ↦ connect_first addrs
      ]
    ]
  ]
]
  where
    connect_first : List SocketAddr → Result SocketAddr ConnectError
    connect_first [] = err ConnectError.no_remote_addr
    connect_first (remote_addr ∷ _) = elim net.binds [
      | false ↦ err ConnectError.bind_failed
      | true ↦ elim (net.connects remote_addr) [
        | false ↦ err ConnectError.connect_failed
        | true ↦ ok remote_addr
      ]
    ]
