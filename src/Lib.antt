-- ===== src/Lib.antt =====
-- The match servers of kotatsu_backend, and what is proved of them.
--
-- The program
--   realtime-split/realtime-server keeps the matches. Its state `core` (types.rs) maps match ids to
--   rooms and tokens to tickets, under one lock. Two fronts work on it: the gRPC control plane
--   (grpc_service.rs) creates, lists, starts, finishes and deletes rooms and issues tickets, and the
--   UDP server (udp_connection.rs) lets players in by ticket, takes their packets and passes them
--   on. A task (cleanup.rs) deletes idle lobbies. What the server has to tell a player waits in that
--   player's channel, which another task of the UDP server empties into packets.
--   realtime-split/api-server is an HTTP front: each of its handlers makes one call of the control
--   plane and translates the result.
--   realtime-split/test-client has two tools that play against both: test-client joins four clients
--   to a match, lets one change a parameter, and checks what all of them have seen; remote-rtt
--   measures how long a datagram takes from one client over the server to another.
--
-- The files
--   Prelude, HashMap, Sort: shared names; `HashMap` as an association list with its laws, whose order
--     stands for the unspecified order of iteration; `sort_by` with its laws; `Ord` as an interface.
--   Realtime/Types, Magicnums, Error, State: types.rs, magicnums.rs, the errors with their texts, and
--     the state shared by the UDP server's tasks: `core`, the sessions, the channels, and the packets
--     sent so far.
--   Realtime/Params: params.rs. Realtime/Ticket: ticket.rs. Realtime/Player: player.rs.
--   Realtime/Layout, Room, Broadcast: room.rs. Realtime/Cleanup: cleanup.rs.
--   Realtime/Status, ControlPlane: proto/proto/controlplane.proto and grpc_service.rs.
--   Realtime/Core: the sections that hold the lock on `core`, as the data type `Call`, the function
--     `step` that makes one call and `run` that makes a sequence; below it the invariant `IsValid`
--     and the theorems on the rooms. Core/Links: where the players are reached.
--   Realtime/Udp: udp_connection.rs, with the join as a task whose sections are `join_step`.
--     Udp/Linked: the players of the matches and the sessions of the registry.
--   Realtime/Serving: main.rs with the receive loop of udp_connection.rs: a run of the server as a
--     sequence of calls, packets and rounds of the two tasks.
--   Realtime/Samples, Realtime/Tests: small states, and the theorems at them.
--   Api: api-server/src/main.rs. Documentation: the operations of its OpenAPI document. Types,
--     Handlers: its bodies and handlers. Router: `main` with the routes. OverServer: the API with the
--     realtime server behind it. Documented, Outcomes, Lifecycle: the theorems.
--   TestClient: test-client/src/main.rs. Connect, Messages, Settings: the socket, the messages as
--     the tools declare them, the environment. Stats, Run: the statistics, and the two tasks of
--     `run_one_client` as functions for one step each with `run` for any sequence of steps. Tasks:
--     `run_one_client` from its start to its end, among the tasks of all clients. Verdict, Main: the
--     checks of `main`, and `main`. Interleaving, Counts, OwnEntry, Isolation, Passed, Pass, Refusals,
--     Changes, Scenario, Packets: their theorems.
--   RemoteRtt: test-client/src/bin/remote-rtt.rs. Numbers, Config, CommandLine: `parse_config`. Join,
--     Measure, Summary: `connect_and_join`, `measure_datagram_one_way`, and `summarize` with the end
--     of `main`. Main: `main`. Bounds, Decimal, Arguments, Joined, Samples, Probes, Reports, Totals:
--     their theorems.
--
-- How the code is modelled
--   A function that locks `core` is a function from the state to a result and a new state, written
--   with do blocks; an early return is a result `err`. The clock, the identifiers of `Uuid`, the
--   random shuffle, whether the socket accepts a packet, and the JSON library are arguments. A
--   shuffle is any function on lists, and permutes its list where a theorem says so. Between two
--   locked sections other tasks may run: `Core.run` takes the sections in any sequence, and
--   `Udp.Join.Ends.join_among` lets others change the whole state between the sections of a join,
--   while `handle_join` and the other handlers run their sections without a break, and `serve` runs
--   handlers one after the other.
--   The tools read from a socket: what comes in is a list, and its end is that nothing more comes,
--   which remote-rtt's timeouts turn into an end and the test client waits out. Of the clock
--   remote-rtt's model takes the elapsed time of each arrival. Floating point numbers, URLs, name
--   resolution, the environment and the HTTP clients are arguments. A panic of an index is a missing result.
--
-- Bounds
--   An unsigned integer is a natural number. Where the code adds to one or casts to one, the
--   wrap-around is written out (`% 2 ^ 64`, `% 2 ^ 32`), a saturating operation as a minimum or as a
--   subtraction that stops at zero. The digits of a `u64` are printed with fuel 20, which is the
--   length of the longest. `str::parse` refuses what is above the greatest value of its type. The
--   counts of the tools, which go up by one for a packet, are not wrapped. A join is run for seven
--   sections, which is as many as it can have.
--
-- Not modelled
--   Spawning and binding, sockets, logging and sleeping; how the router's library matches a path and
--   takes a body apart, and the schemas of the OpenAPI document; what the two tools print on the way;
--   connection.rs, protocol.rs and server.rs, which main.rs does not declare; `broadcast_reliable`,
--   which has the body of `broadcast_reliable_udp` and no caller; and the bounds of 1024 messages on
--   the channels: a sender that meets one waits, where here the queue grows.
pub mod Prelude
pub mod HashMap
pub mod Sort
pub mod Realtime
pub mod Api
pub mod TestClient
pub mod RemoteRtt
