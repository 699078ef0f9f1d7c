-- ===== src/Query/Examples.antt =====
-- A query over three records, and the theorems of query_gateway.py at it.
use wiki_spike.Base.{
  String, Bool, ◌≡◌, ◌≢◌, refl, ◌⊎◌, ◌↔◌, Option, none, some, [], ◌∷◌, String-discrete, In,
}
use wiki_spike.Json.{null}
use wiki_spike.Policy.{CapabilityToken, Sensitivity, public, private, secret_data}
use wiki_spike.Query.{
  QueryEnvelope, MemoryRecord, QueryBatch, Visible, shown, Payload, Status, payload, query,
}
use wiki_spike.Query.Visibility.{IsShown, query_shows, query_fails_closed}

abbrev envelope : QueryEnvelope
envelope = record {
  contract_version = "1";
  query_id = "q1";
  workspace_id = "w";
  actor_id = "ada";
  query_type = "search";
  as_of_generation_id = "g1";
  consistency = "authoritative";
  parameters = null;
}

abbrev token : CapabilityToken
token = record {
  token_id = "t";
  workspace_id = "w";
  actor_id = "ada";
  actions = "search" ∷ [];
  max_sensitivity = private;
  expires_at = "2027";
}

abbrev memory : String → String → Sensitivity → MemoryRecord
memory object_id workspace_id sensitivity = record {
  object_id = object_id;
  workspace_id = workspace_id;
  sensitivity = sensitivity;
  lifecycle_status = "active";
  contents = null;
}

abbrev batch : QueryBatch
batch = record {
  generation_id = "g1";
  records = memory "o1" "w" public ∷ memory "o2" "v" public ∷ memory "o3" "w" secret_data ∷ [];
}

abbrev resolve : String → String → Option CapabilityToken
resolve workspace actor = some token

abbrev read : QueryEnvelope → Bool → Option QueryBatch
read q projection = some batch

abbrev lifecycle_status_at : String → String → String → Option String
lifecycle_status_at workspace object generation = some "active"

answered :
    (query "1" "2026" resolve read lifecycle_status_at envelope).result
    ≡ some (payload "1" "2026" resolve read lifecycle_status_at token envelope batch)
unfolding query String-discrete
answered = refl

abbrev first : Visible
first = shown (memory "o1" "w" public) "active"

query_shows_example :
    In first (payload "1" "2026" resolve read lifecycle_status_at token envelope batch).records ↔ (
      (r : MemoryRecord) × In r batch.records
      × IsShown "1" "2026" resolve read lifecycle_status_at token envelope r first)
query_shows_example =
    query_shows "1" "2026" resolve read lifecycle_status_at envelope token batch
      (payload "1" "2026" resolve read lifecycle_status_at token envelope batch) refl refl answered
      first

query_fails_closed_example :
    (((query "1" "2026" resolve read lifecycle_status_at envelope).result ≡ none)
      × ((query "1" "2026" resolve read lifecycle_status_at envelope).error_code ≢ none)
      × ((query "1" "2026" resolve read lifecycle_status_at envelope).status ≢ Status.ok))
    ⊎ ((p : Payload) × ((query "1" "2026" resolve read lifecycle_status_at envelope).result
          ≡ some p)
        × ((query "1" "2026" resolve read lifecycle_status_at envelope).status ≡ Status.ok)
        × ((envelope.consistency ≡ "projection_ok")
            ⊎ (p.source_generation_id ≡ envelope.as_of_generation_id)))
query_fails_closed_example = query_fails_closed "1" "2026" resolve read lifecycle_status_at envelope
