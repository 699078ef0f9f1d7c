-- ===== src/ControlPlane/Schema.antt =====
-- `SCHEMA` of controlplane.py. A table is the list of its rows in the order of insertion. JSON
-- columns hold the value that the source writes by `json.dumps` and reads by `json.loads`; of a
-- manifest that is the part which the control plane reads, `descriptor.inline_artifacts`.
use wiki_spike.Base.{ℕ, String, Option, none, List, [], Bool, true, false}
use wiki_spike.Models.{Scope, Polarity, Evidence}

-- generation.state
pub data GenerationState : Type 0 where
  validated read_models_ready published superseded : GenerationState

abbrev pub is_validated : GenerationState → Bool
is_validated validated = true
is_validated _ = false

abbrev pub is_ready : GenerationState → Bool
is_ready read_models_ready = true
is_ready _ = false

-- `none` where the manifest lacks the key, as `manifest_json = '{}'` does
pub record InlineArtifacts : Type 0 where
  pub wiki_files_root : Option String
  pub citation_index_digest : Option String

pub record Generation : Type 0 where
  pub generation_id : String
  pub parent_generation_id : Option String
  pub candidate_commit_oid : String
  pub manifest_hash : String
  pub manifest_json : InlineArtifacts
  pub release_commit_oid : Option String
  pub state : GenerationState
  pub seq : ℕ

pub record ClaimRow : Type 0 where
  pub claim_id : String
  pub subject : String
  pub predicate : String
  pub object : String
  pub polarity : Polarity
  pub scope_json : Scope

pub record AssertionRow : Type 0 where
  pub assertion_id : String
  pub claim_id : String
  pub source_id : String
  pub evidence_json : Evidence
  pub modality : String

-- generation_assertion
pub record Membership : Type 0 where
  pub generation_id : String
  pub assertion_id : String

-- read_model_status; the only state that is written is 'ready'
pub record ReadModel : Type 0 where
  pub generation_id : String
  pub model_name : String
  pub is_ready : Bool
  pub artifact_digest : Option String

-- claim_resolution; the states that the program writes
pub data ResolutionState : Type 0 where
  accepted retracted : ResolutionState

pub record Resolution : Type 0 where
  pub generation_id : String
  pub claim_id : String
  pub state : ResolutionState

pub record IndexEntry : Type 0 where
  pub generation_id : String
  pub claim_id : String
  pub subject : String
  pub predicate : String
  pub object : String

-- the one row of publication
pub record Publication : Type 0 where
  pub current_generation_id : Option String
  pub current_release_commit_oid : Option String
  pub current_search_generation_id : Option String

pub data EventType : Type 0 where
  release_mirror_requested : EventType

pub record OutboxEvent : Type 0 where
  pub event_id : ℕ
  pub event_type : EventType
  pub generation_id : String
  pub processed : Bool

-- the one row of publisher_lease; times are seconds since the epoch
pub record PublisherLease : Type 0 where
  pub holder : Option String
  pub expires_at : ℕ
  pub fencing_token : ℕ

pub record Db : Type 0 where
  pub generations : List Generation
  pub claims : List ClaimRow
  pub assertions : List AssertionRow
  pub memberships : List Membership
  pub read_models : List ReadModel
  pub resolutions : List Resolution
  pub search_index : List IndexEntry
  pub publication : Publication
  pub open publication use *
  pub outbox : List OutboxEvent
  pub last_event_id : ℕ  -- the row of sqlite_sequence, by which AUTOINCREMENT never reuses an id
  pub lease : PublisherLease

-- What `executescript(SCHEMA)` makes of a new file.
abbrev pub empty_db : Db
empty_db = record {
  generations = [];
  claims = [];
  assertions = [];
  memberships = [];
  read_models = [];
  resolutions = [];
  search_index = [];
  publication = record {
    current_generation_id = none;
    current_release_commit_oid = none;
    current_search_generation_id = none;
  };
  outbox = [];
  last_event_id = 0;
  lease = record { holder = none; expires_at = 0; fencing_token = 0 };
}

abbrev pub membership_key : Membership → String × String
membership_key m = (m.generation_id, m.assertion_id)

abbrev pub read_model_key : ReadModel → String × String
read_model_key m = (m.generation_id, m.model_name)

abbrev pub resolution_key : Resolution → String × String
resolution_key r = (r.generation_id, r.claim_id)

abbrev pub index_key : IndexEntry → String × String
index_key e = (e.generation_id, e.claim_id)

abbrev pub generation_key : Generation → String
generation_key g = g.generation_id

abbrev pub claim_key : ClaimRow → String
claim_key c = c.claim_id

abbrev pub assertion_key : AssertionRow → String
assertion_key a = a.assertion_id
