-- ===== src/Workspace.antt =====
-- workspace.py: ingestion and publication under the publisher lease, and the trusted revocation. The time
-- is an argument, and so is the content of the file.
pub mod Guarded
pub mod Untrusted
pub mod Additive
mod Examples
use wiki_spike.Base.{
  ℕ, String, Bool, true, false, Option, none, some, List, [], ◌∷◌, length, if◌then◌else◌,
}
use wiki_spike.Exec.{Exec, Result, err, pure, ◌>>=◌, ◌>>◌, lease_error}
use wiki_spike.Models.{CompiledClaim}
use wiki_spike.ControlPlane.Schema.{Db}
use wiki_spike.ControlPlane.Lease.{acquire_lease, release_lease}
use wiki_spike.Publish.Builder.{Builder, Site, on_db, write_db}
use wiki_spike.Publish.Prepare.{Request, any_parent}
use wiki_spike.Publish.Service.{PublishResult, nothing_published, publish}
use wiki_spike.Sources.Store.{Cas}
use wiki_spike.Sources.Ingest.{
  Texts, Sources, ExtractResult, CompileResult, ReceiveResult, receive, compile,
}
use Prim.Native.String.{◌++◌ as append_text}

abbrev pub lease_ttl : ℕ
lease_ttl = 30

-- The default of `publish`.
abbrev pub default_retries : ℕ
default_retries = 3

pub record IngestPublishResult : Type 0 where
  pub source_id : String
  pub new_claims : ℕ
  pub revokes : ℕ
  pub publish : PublishResult
  pub quarantined : Bool

pub record Workspace (R : Type 0) : Type 0 where
  pub site : Site R
  pub sources : Sources

module _ {R A : Type 0} where
  abbrev pub on_site : Exec (Site R) A → Exec (Workspace R) A
  on_site m w = let (r, site) = m w.site in (r, record w { site = site })

  abbrev pub on_sources : Exec Sources A → Exec (Workspace R) A
  on_sources m w = let (r, sources) = m w.sources in (r, record w { sources = sources })

  abbrev pub release : String → Result A × Workspace R → Result A × Workspace R
  release holder (r, w) =
      (r, record w { site = record w.site { db = release_lease holder w.site.db } })

  abbrev with_grant : String → Exec (Workspace R) A → Option ℕ → Exec (Workspace R) A
  with_grant holder body none w = (err lease_error, w)
  with_grant holder body (some token) w = release holder (body w)

  -- `acquire_lease`, the body, and `finally: release_lease`
  unfoldable pub under_lease : String → ℕ → Exec (Workspace R) A → Exec (Workspace R) A
  under_lease holder now body w =
      let (token, db) = acquire_lease holder now lease_ttl w.site.db in
      with_grant holder body token (record w { site = record w.site { db = db } })

abbrev pub request : List CompiledClaim → String → List String → Request
request claims snapshot revokes = record {
  new_claims = claims;
  source_snapshot_hash = snapshot;
  revokes = revokes;
  expected = any_parent;
  changeset_binding = none;
}

module _ {R : Type 0} (builder : Builder R) (others : ℕ → Db → Db) (holder : String) (now : ℕ) where
  unfoldable pub admin_revoke : List String → String → Exec (Workspace R) PublishResult
  admin_revoke claim_ids reason = under_lease holder now (
      on_site (
        publish builder others (request [] (append_text "admin:" reason) claim_ids)
          default_retries))

  module _ (texts : Texts) (on_disk : String → String) (writers : Cas → Cas)
      (extract : String → String → String → Result ExtractResult) where
    -- A source that proposes to revoke is quarantined.
    abbrev pub publish_compiled :
        ReceiveResult → CompileResult → List String → Exec (Workspace R) IngestPublishResult
    publish_compiled r c (x ∷ xs) = pure (record {
      source_id = r.source_id;
      new_claims = length c.claims;
      revokes = length (x ∷ xs);
      publish = nothing_published 0;
      quarantined = true;
    })
    publish_compiled r c [] = do
      result ← on_site (publish builder others (request c.claims r.content_hash []) default_retries)
      pure (record {
        source_id = r.source_id;
        new_claims = length c.claims;
        revokes = 0;
        publish = result;
        quarantined = false;
      })

    unfoldable pub ingest : String → Exec (Workspace R) IngestPublishResult
    ingest raw = do
      r ← on_sources (receive texts on_disk writers raw)
      c ← on_sources (compile texts extract r.source_id)
      publish_compiled r c c.revokes

    unfoldable pub ingest_and_publish : String → Exec (Workspace R) IngestPublishResult
    ingest_and_publish raw = under_lease holder now (ingest raw)
