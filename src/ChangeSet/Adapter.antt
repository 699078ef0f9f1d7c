-- ===== src/ChangeSet/Adapter.antt =====
-- `StoragePublicationAdapter`: a changeset is published over the parent that it names, or not at all.
-- `others` is what other publishers do to the database between the preparation and the activation.
pub mod Safe
pub mod Verified
use wiki_spike.Base.{
  ℕ, String, Bool, true, false, not, ◌&&◌, Option, none, some, List, [], ◌∷◌, map, ◌=s◌, ◌=o◌,
  if◌then◌else◌,
}
use wiki_spike.Exec.{
  Error, Exec, Result, ok, err, pure, raise, gets, raise_if, ◌>>=◌, ◌>>◌, changeset_incomplete,
  changeset_root_mismatch, changeset_binding_mismatch, changeset_stale_parent,
}
use wiki_spike.ControlPlane.Schema.{Db}
use wiki_spike.ControlPlane.Generations.{generation_commit}
use wiki_spike.Publish.Builder.{Binding, Builder, Candidate, Site, on_db, write_db}
use wiki_spike.Publish.Release.{or_empty}
use wiki_spike.Publish.Prepare.{Prepared, Request, exactly, prepare}
use wiki_spike.Publish.Service.{
  PublishResult, activate_prepared, repair_published_generation, is_cas,
}
use wiki_spike.ChangeSet.{AcceptedChangeSet, ResolvedChangeObject, Hashes}
use wiki_spike.ChangeSet.Resolve.{same_texts, resolve}

pub data CoreStatus : Type 0 where
  core_ok core_rejected core_retry_later : CoreStatus

-- `result` of a CoreResult.
pub data CoreDetails : Type 0 where
  no_details replayed : CoreDetails
  published_now : PublishResult → CoreDetails

pub record CoreResult : Type 0 where
  pub request_id : String
  pub status : CoreStatus
  pub generation_id : Option String
  pub details : CoreDetails
  pub error_code : Option String

abbrev pub binding_of : AcceptedChangeSet → Binding
binding_of c = record {
  contract_version = c.contract_version;
  changeset_id = c.changeset_id;
  workspace_id = c.workspace_id;
  parent_generation_id = or_empty c.parent_generation_id;
  command_ids = c.command_ids;
  object_refs = c.object_refs;
  changes_root = c.changes_root;
}

abbrev pub same_binding : Option Binding → Binding → Bool
same_binding none b = false
same_binding (some a) b =
    a.contract_version =s b.contract_version
    && a.changeset_id =s b.changeset_id
    && a.workspace_id =s b.workspace_id
    && a.parent_generation_id =s b.parent_generation_id
    && same_texts a.command_ids b.command_ids
    && same_texts a.object_refs b.object_refs
    && a.changes_root =s b.changes_root

-- The candidate, where there is one, carries the binding of the changeset.
abbrev pub is_bound : Option Candidate → AcceptedChangeSet → Bool
is_bound none c = true
is_bound (some candidate) c = same_binding candidate.accepted_changeset (binding_of c)

abbrev pub core_result :
    AcceptedChangeSet → CoreStatus → Option String → Option String → CoreDetails → CoreResult
core_result c status generation error details = record {
  request_id = c.changeset_id;
  status = status;
  generation_id = generation;
  details = details;
  error_code = error;
}

-- `x or y` of texts that may be absent
abbrev pub or_else_text : Option String → Option String → Option String
or_else_text none y = y
or_else_text (some x) y = if x =s "" then y else some x

-- The exceptions of `prepare` as results.
abbrev pub failure_status : Error → CoreStatus
failure_status changeset_incomplete = core_rejected
failure_status changeset_root_mismatch = core_rejected
failure_status changeset_binding_mismatch = core_rejected
failure_status _ = core_retry_later

abbrev pub failure_code : Error → String
failure_code changeset_incomplete = "changeset_incomplete"
failure_code changeset_root_mismatch = "changeset_root_mismatch"
failure_code changeset_binding_mismatch = "changeset_binding_mismatch"
failure_code changeset_stale_parent = "stale_generation"
failure_code e = if is_cas e then "stale_generation" else "storage_prepare_failed"

module _ {R : Type 0} (builder : Builder R) (hashes : Hashes)
    (resolver : String → String → Option ResolvedChangeObject)
    -- json.loads(repo.cat_file(f"{commit}:manifest/{generation_id}.json")) ... .get("accepted_changeset")
    (manifest_binding : String → String → R → Option Binding) where
  abbrev named_generation : AcceptedChangeSet → String → Option Binding → Option String
  named_generation c id none = none
  named_generation c id (some b) = if b.changeset_id =s c.changeset_id then some id else none

  abbrev verified_generation : AcceptedChangeSet → String → Option String → R → Option String
  verified_generation c id none repo = none
  verified_generation c id (some commit) repo =
      if not (builder.verify_manifest commit id repo)
      then none
      else named_generation c id (manifest_binding commit id repo)

  abbrev current_generation_matches : AcceptedChangeSet → Option String → Site R → Option String
  current_generation_matches c none s = none
  current_generation_matches c (some id) s =
      verified_generation c id (generation_commit id s.db) s.repo

  unfoldable pub current_changeset_matches : AcceptedChangeSet → Site R → Option String
  current_changeset_matches c s = current_generation_matches c s.db.current_generation_id s

  abbrev pub request_for : AcceptedChangeSet → List ResolvedChangeObject → Request
  request_for c items = record {
    new_claims = map (λ (o : ResolvedChangeObject). o.compiled_claim) items;
    source_snapshot_hash = hashes.source_hash c.changeset_id c.changes_root;
    revokes = [];
    expected = exactly c.parent_generation_id;
    changeset_binding = some (binding_of c);
  }

  unfoldable pub prepare_changeset : AcceptedChangeSet → Exec (Site R) Prepared
  prepare_changeset c = do
    current ← gets (λ s. s.db.current_generation_id)
    raise_if (not (current =o c.parent_generation_id)) changeset_stale_parent
    items ← (λ s. (resolve hashes resolver c, s))
    publication ← prepare builder (request_for c items) 1
    raise_if (not (is_bound publication.candidate c)) changeset_binding_mismatch
    pure publication

  -- What `activate` makes of the outcome of `activate_prepared`.
  abbrev settle_activation : AcceptedChangeSet → Result PublishResult → Exec (Site R) CoreResult
  settle_activation c (ok r) s = (
    ok (
        core_result c core_ok (or_else_text r.generation_id s.db.current_generation_id) none
          (published_now r)),
    s,
  )
  settle_activation c (err e) s =
      if is_cas e
      then (
        ok (
            core_result c core_retry_later s.db.current_generation_id (some "stale_generation")
              no_details),
        s,
      )
      else (err e, s)

  unfoldable pub activate_changeset : AcceptedChangeSet → Prepared → Exec (Site R) CoreResult
  activate_changeset c p s =
      if not (is_bound p.candidate c)
      then (
        ok (
            core_result c core_rejected s.db.current_generation_id
              (some "changeset_binding_mismatch") no_details),
        s,
      )
      else (let (r, s') = on_db (activate_prepared p) s in settle_activation c r s')

  unfoldable pub replay_changeset : AcceptedChangeSet → String → Exec (Site R) CoreResult
  replay_changeset c id = do
    repair_published_generation builder id
    pure (core_result c core_ok (some id) none replayed)

  module _ (others : Db → Db) where
    abbrev settle_preparation : AcceptedChangeSet → Result Prepared → Exec (Site R) CoreResult
    settle_preparation c (ok p) s = activate_changeset c p (record s { db = others s.db })
    settle_preparation c (err e) s = (
      ok (
          core_result c (failure_status e) s.db.current_generation_id (some (failure_code e))
            no_details),
      s,
    )

    abbrev publish_new : AcceptedChangeSet → Option String → Exec (Site R) CoreResult
    publish_new c (some id) s = replay_changeset c id s
    publish_new c none s = let (r, s') = prepare_changeset c s in settle_preparation c r s'

    unfoldable pub publish_changeset : AcceptedChangeSet → Exec (Site R) CoreResult
    unfolding activate_changeset replay_changeset
    publish_changeset c s = publish_new c (current_changeset_matches c s) s
