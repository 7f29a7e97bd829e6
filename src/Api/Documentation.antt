-- ===== src/Api/Documentation.antt =====
-- The OpenAPI document of api-server/src/main.rs: the operations of `ApiDoc`, with the method, the
-- path and the responses that the attributes of their handlers give. The schemas of what is sent and
-- of what comes back are left out.
use kotatsu_backend.Prelude.{ℕ, String, List, [], ◌∷◌}

pub data Method : Type 0 where
  get post delete : Method

-- A segment of a path: a text, or the place of a parameter.
pub data Segment : Type 0 where
  literal parameter : String → Segment

pub data Operation : Type 0 where
  health openapi list_matches create_match get_match : Operation
  delete_match start_match finish_match join_match : Operation

-- The responses are the statuses with their descriptions.
pub record OperationDoc : Type 0 where
  pub operation : Operation
  pub method : Method
  pub path : List Segment
  pub responses : List (ℕ × String)

-- `/v1/matches`, with what follows.
abbrev pub matches_path : List Segment → List Segment
matches_path rest = Segment.literal "v1" ∷ Segment.literal "matches" ∷ rest

-- `/v1/matches/{match_id}` and `/v1/matches/:match_id`, with what follows.
abbrev pub match_path : List Segment → List Segment
match_path rest = matches_path (Segment.parameter "match_id" ∷ rest)

abbrev pub health_doc : OperationDoc
health_doc = record {
  operation = Operation.health;
  method = Method.get;
  path = Segment.literal "health" ∷ [];
  responses = (200, "Health status") ∷ [];
}

abbrev pub openapi_doc : OperationDoc
openapi_doc = record {
  operation = Operation.openapi;
  method = Method.get;
  path = Segment.literal "openapi.json" ∷ [];
  responses = (200, "Generated OpenAPI spec") ∷ [];
}

abbrev pub list_matches_doc : OperationDoc
list_matches_doc = record {
  operation = Operation.list_matches;
  method = Method.get;
  path = matches_path [];
  responses = (200, "List all current matches") ∷ (502, "Control plane failure") ∷ [];
}

abbrev pub create_match_doc : OperationDoc
create_match_doc = record {
  operation = Operation.create_match;
  method = Method.post;
  path = matches_path [];
  responses = (200, "Create a new match") ∷ (502, "Control plane failure") ∷ [];
}

abbrev pub join_match_doc : OperationDoc
join_match_doc = record {
  operation = Operation.join_match;
  method = Method.post;
  path = match_path (Segment.literal "join" ∷ []);
  responses =
      (200, "Issue join ticket")
      ∷ (404, "Match not found")
      ∷ (409, "Match is full")
      ∷ (502, "Control plane failure")
      ∷ [];
}

abbrev pub get_match_doc : OperationDoc
get_match_doc = record {
  operation = Operation.get_match;
  method = Method.get;
  path = match_path [];
  responses =
      (200, "Get room snapshot") ∷ (404, "Match not found") ∷ (502, "Control plane failure") ∷ [];
}

abbrev pub start_match_doc : OperationDoc
start_match_doc = record {
  operation = Operation.start_match;
  method = Method.post;
  path = match_path (Segment.literal "start" ∷ []);
  responses =
      (200, "Start a match") ∷ (404, "Match not found") ∷ (502, "Control plane failure") ∷ [];
}

abbrev pub finish_match_doc : OperationDoc
finish_match_doc = record {
  operation = Operation.finish_match;
  method = Method.post;
  path = match_path (Segment.literal "finish" ∷ []);
  responses =
      (200, "Record a player's finish and return rank")
      ∷ (404, "Match or player not found")
      ∷ (409, "Match has not started")
      ∷ (502, "Control plane failure")
      ∷ [];
}

abbrev pub delete_match_doc : OperationDoc
delete_match_doc = record {
  operation = Operation.delete_match;
  method = Method.delete;
  path = match_path [];
  responses =
      (204, "Delete a match") ∷ (404, "Match not found") ∷ (502, "Control plane failure") ∷ [];
}

-- The paths of `ApiDoc`, in its order.
abbrev pub api_doc : List OperationDoc
api_doc =
    health_doc ∷ openapi_doc ∷ list_matches_doc ∷ create_match_doc ∷ get_match_doc
    ∷ delete_match_doc ∷ start_match_doc ∷ finish_match_doc ∷ join_match_doc ∷ []
