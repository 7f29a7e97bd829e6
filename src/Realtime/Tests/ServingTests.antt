-- ===== src/Realtime/Tests/ServingTests.antt =====
-- Tests of Serving: a run of the server, and its addresses.
use kotatsu_backend.Prelude.{ℕ_eq, ◌≡◌, refl, String, String_eq, List, [], ◌∷◌, none, some}
use kotatsu_backend.Realtime.Samples.{codec, env}
use kotatsu_backend.HashMap.{lookup, contains_key, insert}
use kotatsu_backend.Realtime.Types.{new_room, PlayerHandle, MatchRoom, udp, default_params}
use kotatsu_backend.Realtime.Serving.Linked.{serve_sessions}
use kotatsu_backend.Realtime.Ticket.{consume_ticket}
use kotatsu_backend.Realtime.Player.{register_player_udp, entering}
use kotatsu_backend.Realtime.Broadcast.{broadcast_datagram_udp}
use kotatsu_backend.Realtime.ControlPlane.{create_room, issue_join_ticket, is_blank}
use kotatsu_backend.Realtime.Udp.Socket.{send_reliable}
use kotatsu_backend.Realtime.Udp.Join.{handle_join}
use kotatsu_backend.Realtime.Udp.Handlers.{handle_udp_packet}
use kotatsu_backend.Realtime.Udp.Outgoing.{flush_outgoing}
use kotatsu_backend.Realtime.Serving.{
  Request, Event, addresses, started, serve, serve_event, receive, answer,
}

-- A match is created and joined, and its player sends a position.
abbrev events : List Event
events =
    Event.request (Request.create_room "9" 1400)
    ∷ Event.request (Request.issue_join_ticket "m_9" "eve" "e" "t_1" 1400)
    ∷ Event.received env 7009 (1 ∷ 0 ∷ [])
    ∷ Event.flush_tick
    ∷ Event.received env 7009 (2 ∷ 5 ∷ [])
    ∷ []

-- The player who has joined.
abbrev eve : PlayerHandle
eve = record {
  display_name = "eve";
  params = default_params;
  next_param_change_at_unix = 0;
  color_index = none;
  stage_order = [];
  current_stage_index = 0;
  reliable_tx = 4;
  connection = some (udp 7009);
}

abbrev room : MatchRoom
room = record {
  players = ("p_e", eve) ∷ [];
  started_at_unix = 0;
  last_activity_unix = 1500;
  finished_player_ids = [];
}

serve_sessions_example :
    lookup 7009 (serve codec "udp://h:1" (events) started).clients
    ≡ some (record { match_id = "m_9"; player_id = "p_e"; addr = 7009; tx = 4; rx = 4 })
unfolding serve lookup serve_event receive handle_udp_packet flush_outgoing handle_join contains_key
    answer consume_ticket issue_join_ticket create_room insert new_room register_player_udp
    send_reliable broadcast_datagram_udp entering is_blank
serve_sessions_example =
    serve_sessions codec "udp://h:1" (events) "m_9" "p_e" room eve 7009 refl refl refl

addresses_without_variables : addresses (λ (name : String). none) ≡ record {
  grpc_addr = "0.0.0.0:50051";
  udp_bind_addr = "0.0.0.0:4433";
  udp_public_url = "udp://127.0.0.1:4433";
}
unfolding addresses
addresses_without_variables = refl
