-- ===== src/Api/OverServer.antt =====
-- The API over the realtime server: the client of the control plane with the handlers of
-- realtime-server/src/grpc_service.rs behind it.
use kotatsu_backend.Prelude.{ℕ, String, ok}
use kotatsu_backend.Realtime.Layout.{Shuffle}
use kotatsu_backend.Realtime.State.{Server, on_core}
use kotatsu_backend.Realtime.Status.{Status}
use kotatsu_backend.Realtime.ControlPlane
use kotatsu_backend.Api.Types.{Response}
use kotatsu_backend.Api.Router.{ApiCall, ControlPlaneClient, handle}

-- What a call meets: the identifiers that it gets, the clock and the shuffle.
pub record Moment : Type 0 where
  pub uuid : String
  pub token : String
  pub now : ℕ
  pub now_ms : ℕ
  pub shuffle : Shuffle

module _ (udp_public_url : String) where
  abbrev pub server_client : Moment → ControlPlaneClient Server
  server_client at = record {
    create_room = on_core (ControlPlane.create_room at.uuid at.now);
    list_rooms = λ s. (ok (ControlPlane.list_rooms s.core), s);
    issue_join_ticket = λ match_id display_name. on_core (
        ControlPlane.issue_join_ticket udp_public_url match_id display_name at.uuid at.token
          at.now);
    get_room = λ match_id s. (ControlPlane.get_room match_id s.core, s);
    start_room = λ match_id. ControlPlane.start_room at.shuffle match_id at.now at.now_ms;
    finish_room =
        λ match_id player_id. on_core (ControlPlane.finish_room match_id player_id at.now);
    delete_room = λ match_id. on_core (ControlPlane.delete_room match_id);
  }

  unfoldable pub respond_to : (Status → String) → Moment → ApiCall → Server → Response × Server
  respond_to display at call s = handle display (server_client at) call s
