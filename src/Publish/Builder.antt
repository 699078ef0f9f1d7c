-- ===== src/Publish/Builder.antt =====
-- What publish.py uses of generation.py, gitrepo.py, signing.py and models.py, behind an interface:
-- the actions on a Git repository of type `R`, and the hashes. Bytes are texts.
use wiki_spike.Base.{String, Bool, ◌≡◌, Option, some, List}
use wiki_spike.Exec.{Exec, Result, ok}
use wiki_spike.Models.{CompiledClaim}
use wiki_spike.ControlPlane.Schema.{Db, InlineArtifacts}

-- `changeset_binding`: the `accepted_changeset` of a descriptor.
pub record Binding : Type 0 where
  pub contract_version : String
  pub changeset_id : String
  pub workspace_id : String
  pub parent_generation_id : String
  pub command_ids : List String
  pub object_refs : List String
  pub changes_root : String

-- `CandidateResult` of generation.py. The manifest is what the control plane reads of it.
pub record Candidate : Type 0 where
  pub generation_id : String
  pub commit_oid : String
  pub manifest : InlineArtifacts
  pub wiki_files_root : String
  pub citation_index_digest : String
  pub accepted_changeset : Option Binding

-- `ResolutionDecision` of models.py; the state, the policy version and the rationale are constants.
pub record Decision : Type 0 where
  pub claim_id : String
  pub assertion_ids : List String

-- `body` of `_build_release_commit`; the profile and the key id are the builder's.
pub record ReleaseBody : Type 0 where
  pub generation_id : String
  pub candidate_commit_oid : String
  pub wiki_files : String
  pub citation_index : String
  pub previous_release_commit_oid : String

pub record Builder (R : Type 0) : Type 0 where
  -- GenerationBuilder
  pub build_candidate :
      List CompiledClaim → Option String → String → String → Option Binding → Exec R Candidate
  pub verify_manifest : String → String → R → Bool
  -- parse_snapshot(repo.cat_file(f"{commit}:knowledge/snapshot.json"))
  pub snapshot : String → R → Result (List CompiledClaim)
  -- GitRepo
  pub write_tree_from_files : List (String × String) → Exec R String
  pub commit_tree : String → String → String → Exec R String
  pub read_ref : String → R → Option String
  pub create_ref_only : String → String → Exec R Unit
  -- hashing.py, canonical.py, signing.py
  pub accepted_claim_set_root : List Decision → String
  pub canonical_hash : ReleaseBody → String
  pub manifest_hash : Candidate → String
  pub sign_domain : String → String → String
  pub release_bytes : ReleaseBody → String → String

-- The repository of a publisher, and the database.
pub record Site (R : Type 0) : Type 0 where
  pub db : Db
  pub repo : R

module _ {R A : Type 0} where
  abbrev pub on_repo : Exec R A → Exec (Site R) A
  on_repo m s = let (r, repo) = m s.repo in (r, record s { repo = repo })

  abbrev pub on_db : Exec Db A → Exec (Site R) A
  on_db m s = let (r, db) = m s.db in (r, record s { db = db })

module _ {R : Type 0} where
  abbrev pub write_db : (Db → Db) → Exec (Site R) Unit
  write_db f s = (ok tt, record s { db = f s.db })

-- What generation.py promises of a candidate: its manifest names its own artifacts.
pub record IsFaithful {R : Type 0} (builder : Builder R) : Type 0 where
  pub manifest_wiki :
      (claims : List CompiledClaim) (parent : Option String) (source root : String)
      (binding : Option Binding) (r : R) (c : Candidate)
      → (builder.build_candidate claims parent source root binding r).0 ≡ ok c
      → c.manifest.wiki_files_root ≡ some c.wiki_files_root
  pub manifest_citation :
      (claims : List CompiledClaim) (parent : Option String) (source root : String)
      (binding : Option Binding) (r : R) (c : Candidate)
      → (builder.build_candidate claims parent source root binding r).0 ≡ ok c
      → c.manifest.citation_index_digest ≡ some c.citation_index_digest
