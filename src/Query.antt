-- ===== src/Query.antt =====
-- memory_core/query_gateway.py: queries pinned to a generation. The backend, the resolver of capabilities
-- and the reader of object states are parameters, as the protocols of the source have them.
pub mod Visibility
mod Examples
use wiki_spike.Base.{
  String, Bool, true, false, not, ◌&&◌, ◌||◌, Option, none, some, List, [], ◌∷◌, if◌then◌else◌,
  ◌=s◌,
}
use wiki_spike.Json.{Json}
use wiki_spike.Policy.{CapabilityToken, PolicyRequest, Sensitivity, authorize}

-- `QueryEnvelope` of contracts.py
pub record QueryEnvelope : Type 0 where
  pub contract_version : String
  pub query_id : String
  pub workspace_id : String
  pub actor_id : String
  pub query_type : String
  pub as_of_generation_id : String
  pub consistency : String
  pub parameters : Json

pub record MemoryRecord : Type 0 where
  pub object_id : String
  pub workspace_id : String
  pub sensitivity : Sensitivity
  pub lifecycle_status : String
  pub contents : Json

pub record QueryBatch : Type 0 where
  pub generation_id : String
  pub records : List MemoryRecord

-- An item of `visible`
pub record Visible : Type 0 where
  pub object_id : String
  pub sensitivity : Sensitivity
  pub lifecycle_status : String
  pub contents : Json

-- `result` of a query that succeeds
pub record Payload : Type 0 where
  pub records : List Visible
  pub stale : Bool
  pub source_generation_id : String
  pub as_of_generation_id : String

pub data Status : Type 0 where
  ok retry_later rejected : Status

-- `CoreResult`; `none` is the empty result
pub record CoreResult : Type 0 where
  pub contract_version : String
  pub request_id : String
  pub status : Status
  pub generation_id : String
  pub result : Option Payload
  pub error_code : Option String

abbrev pub is_live : String → Bool
is_live status = status =s "active" || status =s "accepted"

abbrev pub shown : MemoryRecord → String → Visible
shown r state = record {
  object_id = r.object_id;
  sensitivity = r.sensitivity;
  lifecycle_status = state;
  contents = r.contents;
}

-- CONTRACT_VERSION is a parameter of the answers.
module _ (contract_version now : String) (resolve : String → String → Option CapabilityToken)
    (read : QueryEnvelope → Bool → Option QueryBatch)
    (lifecycle_status_at : String → String → String → Option String) where
  abbrev pub request : QueryEnvelope → MemoryRecord → PolicyRequest
  request q r = record {
    workspace_id = q.workspace_id;
    actor_id = q.actor_id;
    action = q.query_type;
    now = now;
    object_sensitivity = r.sensitivity;
  }

  -- What a query shows of one record.
  unfoldable pub look : CapabilityToken → QueryEnvelope → MemoryRecord → Option Visible
  unfolding authorize
  look token q r =
      if not (r.workspace_id =s q.workspace_id)
      then none
      else elim (lifecycle_status_at q.workspace_id r.object_id q.as_of_generation_id) [
        | none ↦ none
        | some state ↦
            if not (is_live state)
            then none
            else if not (authorize token (request q r)).allowed
            then none
            else some (shown r state)
      ]

  -- The loop over `batch.records`
  unfoldable pub visible : CapabilityToken → QueryEnvelope → List MemoryRecord → List Visible
  unfolding look
  visible token q [] = []
  visible token q (r ∷ rest) = elim (look token q r) [
    | none ↦ visible token q rest
    | some v ↦ v ∷ visible token q rest
  ]

  abbrev answer : QueryEnvelope → Status → Option Payload → Option String → CoreResult
  answer q status result code = record {
    contract_version = contract_version;
    request_id = q.query_id;
    status = status;
    generation_id = q.as_of_generation_id;
    result = result;
    error_code = code;
  }

  abbrev pub use_projection : QueryEnvelope → Bool
  use_projection q = q.consistency =s "projection_ok"

  abbrev pub payload : CapabilityToken → QueryEnvelope → QueryBatch → Payload
  payload token q batch = record {
    records = visible token q batch.records;
    stale = not (batch.generation_id =s q.as_of_generation_id);
    source_generation_id = batch.generation_id;
    as_of_generation_id = q.as_of_generation_id;
  }

  abbrev answer_batch : CapabilityToken → QueryEnvelope → QueryBatch → CoreResult
  answer_batch token q batch =
      let stale = not (batch.generation_id =s q.as_of_generation_id) in
      if stale && not (use_projection q)
      then answer q retry_later none (some "authoritative_generation_mismatch")
      else answer q ok (some (payload token q batch)) none

  unfoldable pub query : QueryEnvelope → CoreResult
  unfolding visible
  query q = elim (resolve q.workspace_id q.actor_id) [
    | none ↦ answer q rejected none (some "capability_missing")
    | some token ↦ elim (read q (use_projection q)) [
      | none ↦ answer q retry_later none (some "query_backend_unavailable")
      | some batch ↦ answer_batch token q batch
    ]
  ]
