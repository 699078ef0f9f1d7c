-- ===== src/ChangeSet/Examples.antt =====
-- A changeset of one claim, published and refused, and the theorems of changeset_publication.py at it.
use wiki_spike.Base.{
  String, true, false, ◌≡◌, refl, Option, none, some, List, [], ◌∷◌, arith, String-discrete,
  Key-discrete,
}
use wiki_spike.Base.Sorting.{sorted}
use wiki_spike.Exec.{ok, pure}
use wiki_spike.Table.{find, update, insert_or_ignore, insert_or_replace}
use wiki_spike.Models.{CompiledClaim, positive}
use wiki_spike.ControlPlane.Schema.{Db, empty_db}
use wiki_spike.ControlPlane.Generations.{
  register_generation, mark_read_model, set_read_models_ready, required_from_manifest,
}
use wiki_spike.ControlPlane.Claims.{
  upsert_all, upsert_claim_and_assertion, add_generation_assertions,
}
use wiki_spike.ControlPlane.Activation.{
  activate, release_commit, check_read_models, supersede_row, publish_row, enqueue,
}
use wiki_spike.ControlPlane.Search.{record_resolution, build_search_index, set_search_pointer}
use wiki_spike.Publish.Builder.{Binding, Builder, Site}
use wiki_spike.Publish.Survivors.{survivors, decisions, same_assertions}
use wiki_spike.Publish.Release.{build_release_commit}
use wiki_spike.Publish.Materialize.{post_publish}
use wiki_spike.Publish.Prepare.{prepare}
use wiki_spike.Publish.Service.{PublishResult, activate_candidate, activate_prepared}
use wiki_spike.ChangeSet.{
  AcceptedChangeSet, ResolvedChangeObject, Hashes, claim_object_ref, build_changeset,
  compute_changes_root,
}
use wiki_spike.ChangeSet.Resolve.{resolve}
use wiki_spike.ChangeSet.Adapter.{
  CoreResult, core_ok, core_retry_later, core_result, no_details, published_now, prepare_changeset,
  publish_changeset, current_changeset_matches,
}
use wiki_spike.ChangeSet.Adapter.Verified.{IsVerified, publish_changeset-IsVerified}

abbrev hashes : Hashes
hashes = record {
  compiled_claim_hash = λ c. c.assertion.assertion_id;
  changes_hash = λ p. p.workspace_id;
  identity_hash = λ version workspace parent commands refs root. "id";
  source_hash = λ id root. id;
}

abbrev claim : CompiledClaim
claim = record {
  identity = record {
    claim_id = "c1";
    subject_id = "subject";
    predicate_id = "predicate";
    obj = "object";
    polarity = positive;
    scope = [];
  };
  assertion = record {
    assertion_id = "a1";
    claim_id = "c1";
    source_id = "source";
    evidence_ids = [];
    modality = "asserted";
  };
  evidence = record {
    evidence_id = "e1";
    source_object_hash = "source";
    representation_hash = "text";
    quote_hash = "quote";
    locators = [];
  };
}

abbrev object : ResolvedChangeObject
object = record {
  object_ref = "claim_assertion:a1:a1";
  revision_hash = "a1";
  compiled_claim = claim;
}

abbrev resolver : String → String → Option ResolvedChangeObject
resolver workspace ref = some object

abbrev changeset : Option String → AcceptedChangeSet
changeset parent = record {
  contract_version = "phase3-core-v1";
  changeset_id = "id";
  workspace_id = "w";
  parent_generation_id = parent;
  command_ids = "command" ∷ [];
  object_refs = "claim_assertion:a1:a1" ∷ [];
  changes_root = "w";
}

built : build_changeset hashes "w" none ("command" ∷ []) (object ∷ []) ≡ ok (changeset none)
unfolding build_changeset sorted String-discrete
built = refl

abbrev builder : Builder Unit
builder = record {
  build_candidate = λ claims parent source root binding r. (
    ok (record {
      generation_id = "g1";
      commit_oid = "commit";
      manifest = record { wiki_files_root = some "w"; citation_index_digest = some "c" };
      wiki_files_root = "w";
      citation_index_digest = "c";
      accepted_changeset = binding;
    }),
    r,
  );
  verify_manifest = λ commit id r. true;
  snapshot = λ commit r. ok [];
  write_tree_from_files = λ files. pure "tree";
  commit_tree = λ tree message parent. pure "release";
  read_ref = λ ref r. none;
  create_ref_only = λ ref oid. pure tt;
  accepted_claim_set_root = λ ds. "root";
  canonical_hash = λ body. "hash";
  manifest_hash = λ c. "manifest";
  sign_domain = λ domain hash. "signature";
  release_bytes = λ body signature. "bytes";
}

abbrev manifest_binding : String → String → Unit {0} → Option Binding
manifest_binding commit id r = none

abbrev site : Site Unit
site = record { db = empty_db; repo = tt }

abbrev quiet : Db → Db
quiet db = db

resolved : resolve hashes resolver (changeset none) ≡ ok (object ∷ [])
unfolding resolve claim_object_ref compute_changes_root sorted String-discrete
resolved = refl

abbrev published_result : PublishResult
published_result = record {
  generation_id = some "g1";
  candidate_commit_oid = some "commit";
  release_commit_oid = some "release";
  attempts = 1;
  noop = false;
}

abbrev success : CoreResult
success = core_result (changeset none) core_ok (some "g1") none (published_now published_result)

published_new :
    (publish_changeset builder hashes resolver manifest_binding quiet (changeset none) site).0
    ≡ ok success
unfolding publish_changeset current_changeset_matches prepare_changeset resolve claim_object_ref
    compute_changes_root activate activate_candidate post_publish prepare find insert_or_ignore
    insert_or_replace update survivors decisions same_assertions build_release_commit
    mark_read_model register_generation upsert_all upsert_claim_and_assertion sorted String-discrete
    Key-discrete activate_prepared set_read_models_ready required_from_manifest release_commit
    check_read_models supersede_row publish_row record_resolution add_generation_assertions enqueue
    build_search_index set_search_pointer
published_new = refl

publish_changeset-IsVerified_example :
    (site.db.current_generation_id ≡ (changeset none).parent_generation_id)
    × (items : List ResolvedChangeObject) × IsVerified hashes resolver (changeset none) items
publish_changeset-IsVerified_example =
    publish_changeset-IsVerified builder hashes resolver manifest_binding quiet (changeset none)
      site success published_new refl (λ e. ground arith)

abbrev stale : CoreResult
stale =
    core_result (changeset (some "g0")) core_retry_later none (some "stale_generation") no_details

refused :
    (publish_changeset builder hashes resolver manifest_binding quiet
      (changeset (some "g0"))
      site).0
    ≡ ok stale
unfolding publish_changeset current_changeset_matches prepare_changeset
refused = refl
