-- ===== src/Workspace/Examples.antt =====
-- Ingestions of a source that proposes to revoke, and the theorems of workspace.py at them.
use wiki_spike.Base.{ℕ, String, true, ◌≡◌, ◌⊎◌, none, some, [], ◌∷◌, arith}
use wiki_spike.Exec.{Result, ok, err, pure, lease_error}
use wiki_spike.ControlPlane.Schema.{Db, empty_db}
use wiki_spike.Publish.Builder.{Builder}
use wiki_spike.Sources.Store.{Cas}
use wiki_spike.Sources.Ingest.{Texts, ExtractResult}
use wiki_spike.Workspace.{Workspace, IngestPublishResult, ingest_and_publish}
use wiki_spike.Workspace.Guarded.{IsRefused, IsFree, ingest_and_publish-IsFree}
use wiki_spike.Publish.Service.Additive.{AddsOnly}
use wiki_spike.Workspace.Additive.{ingest_and_publish-AddsOnly}
use wiki_spike.Workspace.Untrusted.{IsSameButLease, ingest_and_publish-quarantines}

abbrev builder : Builder Unit
builder = record {
  build_candidate = λ claims parent source root binding r. (
    ok (record {
      generation_id = "g1";
      commit_oid = "commit";
      manifest = record { wiki_files_root = some "w"; citation_index_digest = some "c" };
      wiki_files_root = "w";
      citation_index_digest = "c";
      accepted_changeset = binding;
    }),
    r,
  );
  verify_manifest = λ commit id r. true;
  snapshot = λ commit r. ok [];
  write_tree_from_files = λ files. pure "tree";
  commit_tree = λ tree message parent. pure "release";
  read_ref = λ ref r. none;
  create_ref_only = λ ref oid. pure tt;
  accepted_claim_set_root = λ ds. "root";
  canonical_hash = λ body. "hash";
  manifest_hash = λ c. "manifest";
  sign_domain = λ domain hash. "signature";
  release_bytes = λ body signature. "bytes";
}

abbrev texts : Texts
texts = record { sha256_hex = λ b. b; decode = λ b. some b; encode = λ t. t; nfc = λ t. t }

abbrev on_disk : String → String
on_disk b = b

abbrev writers : Cas → Cas
writers s = s

abbrev others : ℕ → Db → Db
others n db = db

abbrev extract : String → String → String → Result ExtractResult
extract text id hash = ok (record { claims = []; revokes = "c1" ∷ [] })

abbrev workspace : Workspace Unit
workspace = record {
  site = record { db = empty_db; repo = tt };
  sources = record {
    cas = record { objects = []; tombstones = [] };
    manifests = [];
    representations = [];
  };
}

ingest_and_publish-quarantines_example :
    ((ingest_and_publish builder others "me" 10 texts on_disk writers extract "text"
        workspace).1.site.repo
      ≡ tt)
    × IsSameButLease
        (ingest_and_publish builder others "me" 10 texts on_disk writers extract "text"
          workspace).1.site.db
        empty_db
    × ((r : IngestPublishResult)
        → (ingest_and_publish builder others "me" 10 texts on_disk writers extract "text"
            workspace).0
          ≡ ok r
        → (r.quarantined ≡ true) × (r.publish.noop ≡ true))
ingest_and_publish-quarantines_example =
    ingest_and_publish-quarantines builder others "me" 10 texts on_disk writers extract
      (λ text id hash result h. ground arith) "text" workspace

ingest_and_publish-IsFree_example :
    (IsRefused "me" 10 empty_db
      × (ingest_and_publish builder others "me" 10 texts on_disk writers extract "text" workspace
          ≡ (err lease_error, workspace)))
    ⊎ ((¬ IsRefused "me" 10 empty_db)
        × IsFree "me"
            (ingest_and_publish builder others "me" 10 texts on_disk writers extract "text"
              workspace).1.site.db)
ingest_and_publish-IsFree_example =
    ingest_and_publish-IsFree builder others "me" 10 texts on_disk writers extract "text" workspace

ingest_and_publish-AddsOnly_example :
    AddsOnly
      (ingest_and_publish builder others "me" 10 texts on_disk writers extract "text"
        workspace).1.site.db
      empty_db
ingest_and_publish-AddsOnly_example =
    ingest_and_publish-AddsOnly builder others "me" 10 texts on_disk writers extract
      (λ n db g d h. h) "text" workspace
