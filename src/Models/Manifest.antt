-- ===== src/Models/Manifest.antt =====
-- `SourceManifest` of models.py: the life of a source, as the table `_LEGAL_TRANSITIONS` allows it.
pub mod Lifecycle
use wiki_spike.Base.{
  String, Bool, true, false, Option, none, some, List, [], ◌∷◌, any, if◌then◌else◌,
}

pub data Status : Type 0 where
  received staged validated accepted quarantined revoked : Status

pub Status-discrete : Discrete Status
Status-discrete = hlevel

abbrev pub same_status : Status → Status → Bool
same_status received received = true
same_status staged staged = true
same_status validated validated = true
same_status accepted accepted = true
same_status quarantined quarantined = true
same_status revoked revoked = true
same_status _ _ = false

-- The row of `_LEGAL_TRANSITIONS`; a Python set, in the order in which the source writes it.
unfoldable pub legal_transitions : Status → List Status
legal_transitions received = staged ∷ quarantined ∷ []
legal_transitions staged = validated ∷ quarantined ∷ []
legal_transitions validated = accepted ∷ quarantined ∷ []
legal_transitions accepted = revoked ∷ []
legal_transitions quarantined = []
legal_transitions revoked = []

pub record SourceManifest : Type 0 where
  pub source_id : String
  pub content_hash : String
  pub license : String
  pub duplicate_cluster_id : Option String
  pub status : Status
  pub temporal_provenance : List (String × String)
  pub lineage : List String

-- A new manifest, with the defaults of the dataclass.
unfoldable pub received_manifest : String → String → SourceManifest
received_manifest source_id content_hash = record {
  source_id = source_id;
  content_hash = content_hash;
  license = "unspecified";
  duplicate_cluster_id = none;
  status = received;
  temporal_provenance = [];
  lineage = [];
}

-- `none` is the `StateError`, which leaves the manifest as it was.
unfoldable pub transition : SourceManifest → Status → Option SourceManifest
unfolding legal_transitions
transition m to =
    if any (same_status to) (legal_transitions m.status)
    then some (record m { status = to })
    else none
