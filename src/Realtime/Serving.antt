-- ===== src/Realtime/Serving.antt =====
-- The running realtime server: `main` of realtime-server/src/main.rs starts the two fronts and the
-- cleanup task, and each of them acts on the shared state when something comes in or its time is up.
-- Here each acts to its end before the next one does.
pub mod Reached
pub mod Linked
use Prim.Native.String.{◌++◌ as str_append}
use kotatsu_backend.Prelude.{ℕ, String, List, [], ◌∷◌, Option, none, some}
use kotatsu_backend.Realtime.Types.{SocketAddr, default_core}
use kotatsu_backend.Realtime.Layout.{Shuffle, unwrap_or}
use kotatsu_backend.Realtime.State.{Server, on_core}
use kotatsu_backend.Realtime.Cleanup.{cleanup_round}
use kotatsu_backend.Realtime.ControlPlane
use kotatsu_backend.Realtime.Udp.Socket.{Codec}
use kotatsu_backend.Realtime.Udp.Handlers.{Env, handle_udp_packet}
use kotatsu_backend.Realtime.Udp.Outgoing.{flush_outgoing}

-- The addresses of `main`, as texts; parsing them is left to the system.
pub record Addresses : Type 0 where
  pub grpc_addr : String
  pub udp_bind_addr : String
  pub udp_public_url : String

unfoldable pub addresses : (String → Option String) → Addresses
addresses var = record {
  grpc_addr = unwrap_or (var "GRPC_ADDR") "0.0.0.0:50051";
  udp_bind_addr = unwrap_or (var "UDP_BIND_ADDR") "0.0.0.0:4433";
  udp_public_url = unwrap_or (var "UDP_PUBLIC_URL") (
      str_append "udp://" (
        str_append (unwrap_or (var "PUBLIC_HOSTNAME") "127.0.0.1")
          (str_append ":" (unwrap_or (var "UDP_PORT") "4433"))));
}

-- Nothing has happened yet.
abbrev pub started : Server
started = record { core = default_core; clients = []; channels = []; sent = [] }

-- The calls of the control plane. Its identifiers, the clock and the shuffle are arguments.
pub data Request : Type 0 where
  create_room : String → ℕ → Request
  list_rooms : Request
  get_room : String → Request
  issue_join_ticket : String → String → String → String → ℕ → Request
  start_room : Shuffle → String → ℕ → ℕ → Request
  finish_room : String → String → ℕ → Request
  delete_room : String → Request

-- What a call leaves of the state. Two of them only read.
unfoldable pub answer : String → Request → Server → Server
answer udp_public_url (Request.create_room uuid now) s =
    (on_core (ControlPlane.create_room uuid now) s).1
answer udp_public_url Request.list_rooms s = s
answer udp_public_url (Request.get_room match_id) s = s
answer udp_public_url (Request.issue_join_ticket match_id display_name uuid token now) s =
    (on_core (ControlPlane.issue_join_ticket udp_public_url match_id display_name uuid token now)
      s).1
answer udp_public_url (Request.start_room shuffle match_id now now_ms) s =
    (ControlPlane.start_room shuffle match_id now now_ms s).1
answer udp_public_url (Request.finish_room match_id player_id now) s =
    (on_core (ControlPlane.finish_room match_id player_id now) s).1
answer udp_public_url (Request.delete_room match_id) s =
    (on_core (ControlPlane.delete_room match_id) s).1

-- What the server meets: a call of the control plane, a packet, a failed receive, a round of the
-- outgoing task, or a round of the cleanup task.
pub data Event : Type 0 where
  request : Request → Event
  received : Env → SocketAddr → List ℕ → Event
  recv_failed : Event
  flush_tick : Event
  cleanup_tick : ℕ → Event

module _ {F32 : Type 0} (codec : Codec F32) where
  -- The body of the receive loop: an empty packet is passed over.
  unfoldable pub receive : Env → SocketAddr → List ℕ → Server → Server
  receive env addr [] s = s
  receive env addr (byte ∷ rest) s = handle_udp_packet codec env addr (byte ∷ rest) s

  unfoldable pub serve_event : String → Event → Server → Server
  serve_event udp_public_url (Event.request req) s = answer udp_public_url req s
  serve_event udp_public_url (Event.received env addr packet) s = receive env addr packet s
  serve_event udp_public_url Event.recv_failed s = s
  serve_event udp_public_url Event.flush_tick s = flush_outgoing codec s
  serve_event udp_public_url (Event.cleanup_tick now) s = record s {
    core = cleanup_round now s.core;
  }

  -- A run of the server: the events in the order in which they are met.
  unfoldable pub serve : String → List Event → Server → Server
  serve udp_public_url [] s = s
  serve udp_public_url (event ∷ events) s =
      serve udp_public_url events (serve_event udp_public_url event s)
