-- ===== src/Api/Documented.antt =====
-- What the OpenAPI document says and what the API does.
use mathlib.Core.List.{Mem}
use kotatsu_backend.Prelude.{
  ℕ, ◌≡◌, refl, String, List, [], ◌∷◌, map, some, get_elem?, Result, ok, err,
}
use kotatsu_backend.Prelude.Perms.{get_elem?-Mem}
use kotatsu_backend.Realtime.Status.{
  Code, Status, RoomSummary, CreateRoomResponse, IssueJoinTicketResponse, StartRoomResponse,
  FinishRoomResponse,
}
use kotatsu_backend.Api.Documentation.{
  Operation, OperationDoc, api_doc, health_doc, openapi_doc, list_matches_doc, create_match_doc,
  get_match_doc, delete_match_doc, start_match_doc, finish_match_doc, join_match_doc,
}
use kotatsu_backend.Api.Handlers.{
  match_error, join_response, get_response, start_response, finish_response, delete_response,
  health, openapi, list_matches, create_match, join_match, get_match, start_match, finish_match,
  delete_match,
}
use kotatsu_backend.Api.Router.{Route, app, ApiCall, operation_of, ControlPlaneClient, handle}

abbrev pub statuses : OperationDoc → List ℕ
statuses doc = map (λ r. r.0) doc.responses

abbrev doc_of : Operation → OperationDoc
doc_of Operation.health = health_doc
doc_of Operation.openapi = openapi_doc
doc_of Operation.list_matches = list_matches_doc
doc_of Operation.create_match = create_match_doc
doc_of Operation.get_match = get_match_doc
doc_of Operation.delete_match = delete_match_doc
doc_of Operation.start_match = start_match_doc
doc_of Operation.finish_match = finish_match_doc
doc_of Operation.join_match = join_match_doc

doc_of-Mem : (op : Operation) → Mem (doc_of op) api_doc
doc_of-Mem Operation.health = get_elem?-Mem api_doc 0 _ refl
doc_of-Mem Operation.openapi = get_elem?-Mem api_doc 1 _ refl
doc_of-Mem Operation.list_matches = get_elem?-Mem api_doc 2 _ refl
doc_of-Mem Operation.create_match = get_elem?-Mem api_doc 3 _ refl
doc_of-Mem Operation.get_match = get_elem?-Mem api_doc 4 _ refl
doc_of-Mem Operation.delete_match = get_elem?-Mem api_doc 5 _ refl
doc_of-Mem Operation.start_match = get_elem?-Mem api_doc 6 _ refl
doc_of-Mem Operation.finish_match = get_elem?-Mem api_doc 7 _ refl
doc_of-Mem Operation.join_match = get_elem?-Mem api_doc 8 _ refl

-- The operation is routed under the method and the path that the document gives.
abbrev pub IsRouted : OperationDoc → Type 0
IsRouted doc =
    (route : Route) × Mem route app
    × (route.path ≡ doc.path)
    × Mem (doc.method, doc.operation) route.handlers

-- The place of its path in the routes, and of its method there.
IsRouted-at :
    (op : Operation) (i j : ℕ) (route : Route)
    → get_elem? app i ≡ some route
    → route.path ≡ (doc_of op).path
    → get_elem? route.handlers j ≡ some ((doc_of op).method, (doc_of op).operation)
    → IsRouted (doc_of op)
IsRouted-at op i j route at same handler =
    (route, get_elem?-Mem app i route at, same, get_elem?-Mem route.handlers j _ handler)

doc_of-IsRouted : (op : Operation) → IsRouted (doc_of op)
unfolding app
doc_of-IsRouted Operation.health = IsRouted-at Operation.health 0 0 _ refl refl refl
doc_of-IsRouted Operation.openapi = IsRouted-at Operation.openapi 1 0 _ refl refl refl
doc_of-IsRouted Operation.list_matches = IsRouted-at Operation.list_matches 2 0 _ refl refl refl
doc_of-IsRouted Operation.create_match = IsRouted-at Operation.create_match 2 1 _ refl refl refl
doc_of-IsRouted Operation.get_match = IsRouted-at Operation.get_match 3 0 _ refl refl refl
doc_of-IsRouted Operation.delete_match = IsRouted-at Operation.delete_match 3 1 _ refl refl refl
doc_of-IsRouted Operation.start_match = IsRouted-at Operation.start_match 4 0 _ refl refl refl
doc_of-IsRouted Operation.finish_match = IsRouted-at Operation.finish_match 5 0 _ refl refl refl
doc_of-IsRouted Operation.join_match = IsRouted-at Operation.join_match 6 0 _ refl refl refl

at : {statuses : List ℕ} (i status : ℕ) → get_elem? statuses i ≡ some status → Mem status statuses
at {statuses} i status e = get_elem?-Mem statuses i status e

operation-doc_of : (op : Operation) → (doc_of op).operation ≡ op
operation-doc_of Operation.health = refl
operation-doc_of Operation.openapi = refl
operation-doc_of Operation.list_matches = refl
operation-doc_of Operation.create_match = refl
operation-doc_of Operation.get_match = refl
operation-doc_of Operation.delete_match = refl
operation-doc_of Operation.start_match = refl
operation-doc_of Operation.finish_match = refl
operation-doc_of Operation.join_match = refl

module _ (display : Status → String) where
  match_error_documented :
      (success : ℕ) (e : Status) → Mem (match_error display e).status (success ∷ 404 ∷ 502 ∷ [])
  unfolding match_error
  match_error_documented success e = by_code e.code e.message
    where
      by_code :
          (code : Code) (message : String)
          → Mem
              (match_error display (record { code = code; message = message })).status
              (success ∷ 404 ∷ 502 ∷ [])
      by_code Code.not_found message = at 1 404 refl
      by_code Code.failed_precondition message = at 2 502 refl
      by_code Code.internal message = at 2 502 refl
      by_code Code.other message = at 2 502 refl

  join_response_documented :
      (r : Result IssueJoinTicketResponse Status)
      → Mem (join_response display r).status (statuses join_match_doc)
  unfolding join_response
  join_response_documented (ok r) = at 0 200 refl
  join_response_documented (err e) = by_code e.code e.message
    where
      by_code :
          (code : Code) (message : String)
          → Mem
              (join_response display (err (record { code = code; message = message }))).status
              (statuses join_match_doc)
      by_code Code.not_found message = at 1 404 refl
      by_code Code.failed_precondition message = at 2 409 refl
      by_code Code.internal message = at 3 502 refl
      by_code Code.other message = at 3 502 refl

  finish_response_documented :
      (r : Result FinishRoomResponse Status)
      → Mem (finish_response display r).status (statuses finish_match_doc)
  unfolding finish_response
  finish_response_documented (ok r) = at 0 200 refl
  finish_response_documented (err e) = by_code e.code e.message
    where
      by_code :
          (code : Code) (message : String)
          → Mem
              (finish_response display (err (record { code = code; message = message }))).status
              (statuses finish_match_doc)
      by_code Code.not_found message = at 1 404 refl
      by_code Code.failed_precondition message = at 2 409 refl
      by_code Code.internal message = at 3 502 refl
      by_code Code.other message = at 3 502 refl

  get_response_documented :
      (r : Result RoomSummary Status) → Mem (get_response display r).status (statuses get_match_doc)
  unfolding get_response
  get_response_documented (ok r) = at 0 200 refl
  get_response_documented (err e) = match_error_documented 200 e

  start_response_documented :
      (r : Result StartRoomResponse Status)
      → Mem (start_response display r).status (statuses start_match_doc)
  unfolding start_response
  start_response_documented (ok r) = at 0 200 refl
  start_response_documented (err e) = match_error_documented 200 e

  delete_response_documented :
      (r : Result (Unit {0}) Status)
      → Mem (delete_response display r).status (statuses delete_match_doc)
  unfolding delete_response
  delete_response_documented (ok r) = at 0 204 refl
  delete_response_documented (err e) = match_error_documented 204 e

  list_matches_documented :
      (r : Result (List RoomSummary) Status)
      → Mem (list_matches display r).status (statuses list_matches_doc)
  unfolding list_matches
  list_matches_documented (ok r) = at 0 200 refl
  list_matches_documented (err e) = at 1 502 refl

  create_match_documented :
      (r : Result CreateRoomResponse Status)
      → Mem (create_match display r).status (statuses create_match_doc)
  unfolding create_match
  create_match_documented (ok r) = at 0 200 refl
  create_match_documented (err e) = at 1 502 refl

  module _ {S : Type 0} (grpc : ControlPlaneClient S) where
    handle_documented :
        (call : ApiCall) (s : S)
        → Mem (handle display grpc call s).0.status (statuses (doc_of (operation_of call)))
    unfolding handle health openapi join_match get_match start_match finish_match delete_match
    handle_documented ApiCall.health s = at 0 200 refl
    handle_documented ApiCall.openapi s = at 0 200 refl
    handle_documented ApiCall.list_matches s = list_matches_documented _
    handle_documented ApiCall.create_match s = create_match_documented _
    handle_documented (ApiCall.get_match match_id) s = get_response_documented _
    handle_documented (ApiCall.delete_match match_id) s = delete_response_documented _
    handle_documented (ApiCall.start_match match_id) s = start_response_documented _
    handle_documented (ApiCall.finish_match match_id req) s = finish_response_documented _
    handle_documented (ApiCall.join_match match_id req) s = join_response_documented _

    -- Whatever the control plane answers, every request that a handler takes belongs to an
    -- operation of the OpenAPI document, which the router has under the document's method and path,
    -- and it is answered with one of the statuses that the document lists for that operation.
    pub handle_lem :
        (call : ApiCall) (s : S)
        → (doc : OperationDoc) × Mem doc api_doc
          × (doc.operation ≡ operation_of call)
          × IsRouted doc
          × Mem (handle display grpc call s).0.status (statuses doc)
    handle_lem call s = (
      doc_of (operation_of call),
      doc_of-Mem (operation_of call),
      operation-doc_of (operation_of call),
      doc_of-IsRouted (operation_of call),
      handle_documented call s,
    )
