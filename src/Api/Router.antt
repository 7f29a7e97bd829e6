-- ===== src/Api/Router.antt =====
-- `main` of api-server/src/main.rs: its addresses, its routes, and what a request does that the router
-- has given to its handler. The client of the control plane is an interface: each of its calls takes
-- the state of what it talks to, and the lock on it makes a request one step.
use kotatsu_backend.Prelude.{String, List, [], ◌∷◌, Option, Result}
use kotatsu_backend.Realtime.Layout.{unwrap_or}
use kotatsu_backend.Realtime.Status.{
  Status, RoomSummary, CreateRoomResponse, IssueJoinTicketResponse, StartRoomResponse,
  FinishRoomResponse,
}
use kotatsu_backend.Api.Documentation.{Method, Segment, Operation, matches_path, match_path}
use kotatsu_backend.Api.Types.{JoinMatchReq, FinishMatchReq, Response}
use kotatsu_backend.Api.Handlers

-- The address as a text, and the URL.
pub record Settings : Type 0 where
  pub api_addr : String
  pub control_plane_url : String

unfoldable pub settings : (String → Option String) → Settings
settings var = record {
  api_addr = unwrap_or (var "API_ADDR") "0.0.0.0:8080";
  control_plane_url = unwrap_or (var "CONTROL_PLANE_URL") "http://127.0.0.1:50051";
}

-- A path with the handlers of its methods.
pub record Route : Type 0 where
  pub path : List Segment
  pub handlers : List (Method × Operation)

abbrev get_only : Operation → List (Method × Operation)
get_only handler = (Method.get, handler) ∷ []

abbrev post_only : Operation → List (Method × Operation)
post_only handler = (Method.post, handler) ∷ []

abbrev route : List Segment → List (Method × Operation) → Route
route path handlers = record { path = path; handlers = handlers }

unfoldable pub app : List Route
app =
    route (Segment.literal "health" ∷ []) (get_only Operation.health)
    ∷ route (Segment.literal "openapi.json" ∷ []) (get_only Operation.openapi)
    ∷ route (matches_path [])
        ((Method.get, Operation.list_matches) ∷ post_only Operation.create_match)
    ∷ route (match_path [])
        ((Method.get, Operation.get_match) ∷ (Method.delete, Operation.delete_match) ∷ [])
    ∷ route (match_path (Segment.literal "start" ∷ [])) (post_only Operation.start_match)
    ∷ route (match_path (Segment.literal "finish" ∷ [])) (post_only Operation.finish_match)
    ∷ route (match_path (Segment.literal "join" ∷ [])) (post_only Operation.join_match)
    ∷ []

-- A request with what its handler takes from the path and the body.
pub data ApiCall : Type 0 where
  health openapi list_matches create_match : ApiCall
  get_match delete_match start_match : String → ApiCall
  finish_match : String → FinishMatchReq → ApiCall
  join_match : String → JoinMatchReq → ApiCall

abbrev pub operation_of : ApiCall → Operation
operation_of ApiCall.health = Operation.health
operation_of ApiCall.openapi = Operation.openapi
operation_of ApiCall.list_matches = Operation.list_matches
operation_of ApiCall.create_match = Operation.create_match
operation_of (ApiCall.get_match match_id) = Operation.get_match
operation_of (ApiCall.delete_match match_id) = Operation.delete_match
operation_of (ApiCall.start_match match_id) = Operation.start_match
operation_of (ApiCall.finish_match match_id req) = Operation.finish_match
operation_of (ApiCall.join_match match_id req) = Operation.join_match

abbrev Grpc : Type 0 → Type 0 → Type 0
Grpc S A = S → Result A Status × S

pub record ControlPlaneClient (S : Type 0) : Type 0 where
  pub create_room : Grpc S CreateRoomResponse
  pub list_rooms : Grpc S (List RoomSummary)
  pub issue_join_ticket : String → String → Grpc S IssueJoinTicketResponse
  pub get_room : String → Grpc S RoomSummary
  pub start_room : String → Grpc S StartRoomResponse
  pub finish_room : String → String → Grpc S FinishRoomResponse
  pub delete_room : String → Grpc S (Unit {0})

module _ {S : Type 0} (display : Status → String) (grpc : ControlPlaneClient S) where
  unfoldable pub handle : ApiCall → S → Response × S
  handle ApiCall.health s = (Handlers.health, s)
  handle ApiCall.openapi s = (Handlers.openapi, s)
  handle ApiCall.list_matches s =
      let (r, s') = grpc.list_rooms s in (Handlers.list_matches display r, s')
  handle ApiCall.create_match s =
      let (r, s') = grpc.create_room s in (Handlers.create_match display r, s')
  handle (ApiCall.get_match match_id) s = (
    Handlers.get_match display (λ m. (grpc.get_room m s).0) match_id,
    (grpc.get_room match_id s).1,
  )
  handle (ApiCall.delete_match match_id) s = (
    Handlers.delete_match display (λ m. (grpc.delete_room m s).0) match_id,
    (grpc.delete_room match_id s).1,
  )
  handle (ApiCall.start_match match_id) s = (
    Handlers.start_match display (λ m. (grpc.start_room m s).0) match_id,
    (grpc.start_room match_id s).1,
  )
  handle (ApiCall.finish_match match_id req) s = (
    Handlers.finish_match display (λ m p. (grpc.finish_room m p s).0) match_id req,
    (grpc.finish_room match_id req.player_id s).1,
  )
  handle (ApiCall.join_match match_id req) s = (
    Handlers.join_match display (λ m name. (grpc.issue_join_ticket m name s).0) match_id req,
    (grpc.issue_join_ticket match_id (Handlers.requested_name req) s).1,
  )
