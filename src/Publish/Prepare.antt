-- ===== src/Publish/Prepare.antt =====
-- `PublishService.prepare`: a generation is built and registered, and not yet activated.
pub mod Safe
pub mod Runs
pub mod Registered
pub mod Complete
use wiki_spike.Base.{
  ℕ, String, Bool, true, false, not, Option, none, some, List, [], ◌∷◌, ◌=s◌, ◌=o◌, if◌then◌else◌,
}
use wiki_spike.Exec.{
  Exec, Result, ok, err, pure, raise, gets, raise_if, cas_conflict, artifact_not_verified, ◌>>=◌,
  ◌>>◌,
}
use wiki_spike.Models.{CompiledClaim}
use wiki_spike.ControlPlane.Schema.{Db}
use wiki_spike.ControlPlane.Generations.{
  generation_commit, register_generation, mark_read_model, set_read_models_ready,
}
use wiki_spike.ControlPlane.Claims.{upsert_all}
use wiki_spike.Publish.Builder.{Binding, Builder, Candidate, Site, on_repo, on_db, write_db}
use wiki_spike.Publish.Survivors.{survivors, same_assertions, sorted_set, decisions}
use wiki_spike.Publish.Release.{build_release_commit}

pub record Prepared : Type 0 where
  pub parent_generation_id : Option String
  pub candidate : Option Candidate
  pub release_commit_oid : Option String
  pub surviving : List CompiledClaim
  pub revoked_claim_ids : List String
  pub attempts : ℕ
  pub noop : Bool

-- `expected_parent_generation_id`, with `_ANY_PARENT` for its default
pub data ExpectedParent : Type 0 where
  any_parent : ExpectedParent
  exactly : Option String → ExpectedParent

abbrev pub is_stale : ExpectedParent → Option String → Bool
is_stale any_parent parent = false
is_stale (exactly expected) parent = not (parent =o expected)

-- `... if parent else None`: an empty text counts as none
abbrev pub if_named : Option String → Option String → Option String
if_named none oid = none
if_named (some parent) oid = if parent =s "" then none else oid

-- What `publish` is asked to publish.
pub record Request : Type 0 where
  pub new_claims : List CompiledClaim
  pub source_snapshot_hash : String
  pub revokes : List String
  pub expected : ExpectedParent
  pub changeset_binding : Option Binding

module _ {R : Type 0} (builder : Builder R) where
  unfoldable pub load_snapshot : String → Option String → Exec (Site R) (List CompiledClaim)
  load_snapshot id none = raise artifact_not_verified
  load_snapshot id (some commit) = do
    verified ← gets (λ s. builder.verify_manifest commit id s.repo)
    raise_if (not verified) artifact_not_verified
    (λ s. (builder.snapshot commit s.repo, s))

  unfoldable pub parent_claims : Option String → Exec (Site R) (List CompiledClaim)
  unfolding load_snapshot
  parent_claims none = pure []
  parent_claims (some id) = do
    commit ← gets (λ s. generation_commit id s.db)
    load_snapshot id commit

  -- The registration of a built candidate.
  unfoldable pub register : Option String → Candidate → String → Exec (Site R) Unit
  register parent c release_oid = do
    write_db (
        register_generation c.generation_id parent c.commit_oid (builder.manifest_hash c) c.manifest
          (some release_oid))
    on_db (mark_read_model c.generation_id "wiki_files" c.wiki_files_root)
    on_db (mark_read_model c.generation_id "citation_index" c.citation_index_digest)
    write_db (set_read_models_ready c.generation_id)

  abbrev pub prepared :
      Request
      → ℕ
      → Option String
      → List CompiledClaim
      → Option Candidate
      → Option String
      → Bool
      → Prepared
  prepared q attempts parent surviving candidate release_oid noop = record {
    parent_generation_id = parent;
    candidate = candidate;
    release_commit_oid = release_oid;
    surviving = surviving;
    revoked_claim_ids = sorted_set q.revokes;
    attempts = attempts;
    noop = noop;
  }

  -- Where the set of assertions has changed: build, release, register.
  unfoldable pub build : Request → ℕ → Option String → List CompiledClaim → Exec (Site R) Prepared
  unfolding register
  build q attempts parent surviving = do
    previous ← gets (λ s. if_named parent s.db.current_release_commit_oid)
    c ← on_repo (
        builder.build_candidate surviving parent q.source_snapshot_hash
          (builder.accepted_claim_set_root (decisions surviving)) q.changeset_binding)
    release_oid ← on_repo (build_release_commit builder c previous)
    register parent c release_oid
    pure (prepared q attempts parent surviving (some c) (some release_oid) false)

  unfoldable pub prepare : Request → ℕ → Exec (Site R) Prepared
  unfolding parent_claims build
  prepare q attempts = do
    parent ← gets (λ s. s.db.current_generation_id)
    raise_if (is_stale q.expected parent) cas_conflict
    write_db (upsert_all q.new_claims)
    parents ← parent_claims parent
    let surviving = survivors parents q.new_claims q.revokes
    if same_assertions surviving parents
        then pure (prepared q attempts parent surviving none none true)
        else build q attempts parent surviving
