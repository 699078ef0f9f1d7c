-- ===== src/Workspace/Untrusted.antt =====
-- A source that proposes to revoke publishes nothing.
use wiki_spike.Base.{
  ℕ, String, true, ◌≡◌, ◌≢◌, refl, ap, [], arith, inl, inr, Option-cases, Bool-cases, ◌||◌,
}
use wiki_spike.Exec.{Result, Result-cases, ok}
use wiki_spike.ControlPlane.Schema.{Db, PublisherLease}
use wiki_spike.ControlPlane.Lease.{acquire_lease, release_lease}
use wiki_spike.Models.Manifest.{staged, validated, same_status, transition}
use wiki_spike.Publish.Builder.{Builder, Site}
use wiki_spike.Sources.Store.{Cas, exists, get}
use wiki_spike.Sources.Ingest.{
  Texts, Sources, ExtractResult, CompileResult, representation, manifest_of, extract_source,
  receive, compile,
}
use wiki_spike.Workspace.{
  Workspace, IngestPublishResult, under_lease, lease_ttl, ingest, ingest_and_publish,
}

-- The same but for the row of the lease.
abbrev pub IsSameButLease : Db → Db → Type 0
IsSameButLease a b = (l : PublisherLease) × (a ≡ record b { lease = l })

acquire-IsSameButLease :
    (h : String) (now ttl : ℕ) (db : Db) → IsSameButLease (acquire_lease h now ttl db).1 db
unfolding acquire_lease
acquire-IsSameButLease h now ttl db = ((acquire_lease h now ttl db).1.lease, ground arith)

release-IsSameButLease :
    (h : String) (a b : Db) → IsSameButLease a b → IsSameButLease (release_lease h a) b
unfolding release_lease
release-IsSameButLease h a b (l, same) = ((release_lease h a).lease, ground arith)

-- Every extraction that returns proposes to revoke.
abbrev pub Revokes : (String → String → String → Result ExtractResult) → Type 0
Revokes extract =
    (text id hash : String) (result : ExtractResult)
    → extract text id hash ≡ ok result
    → result.revokes ≢ []

module _ (texts : Texts) (extract : String → String → String → Result ExtractResult)
    (bad : Revokes extract) where
  extract_source-revokes :
      (id : String) (s : Sources) (result : ExtractResult)
      → (extract_source texts extract id s).0 ≡ ok result
      → result.revokes ≢ []
  unfolding extract_source
  extract_source-revokes id s result h empty =
      elim (Result-cases (get texts.sha256_hex id s.cas).0) [
        | inr (e, failed) ↦ ground arith
        | inl (raw, done) ↦ elim (Option-cases (texts.decode raw)) [
          | inl undecodable ↦ ground arith
          | inr (raw_text, decoded) ↦
              elim (Option-cases (texts.decode (representation texts raw_text))) [
                | inl undecodable ↦ ground arith
                | inr (text, again) ↦
                    ground
                      (arith, bad text id (texts.sha256_hex (representation texts raw_text)) result)
              ]
        ]
      ]

  compile-revokes :
      (id : String) (s : Sources) (c : CompileResult)
      → (compile texts extract id s).0 ≡ ok c
      → c.revokes ≢ []
  unfolding compile
  compile-revokes id s c h empty = elim (Bool-cases (exists id s.cas)) [
    | inr absent ↦ ground arith
    | inl there ↦
        let s1 = (manifest_of texts id s).1 in
        elim (Result-cases (manifest_of texts id s).0) [
          | inr (e, failed) ↦ ground arith
          | inl (m, made) ↦
              elim (Bool-cases (same_status m.status staged || same_status m.status validated)) [
                | inr closed ↦ ground arith
                | inl opened ↦ elim (Result-cases (extract_source texts extract id s1).0) [
                  | inr (e, failed) ↦ ground arith
                  | inl (result, done) ↦
                      let not_empty = extract_source-revokes id s1 result done in
                      elim (Bool-cases (same_status m.status staged)) [
                        | inl fresh ↦ elim (Option-cases (transition m validated)) [
                          | inl illegal ↦ ground arith
                          | inr (m', moved) ↦ ground arith
                        ]
                        | inr old ↦ ground arith
                      ]
                ]
              ]
        ]
  ]

module _ {R : Type 0} (builder : Builder R) (others : ℕ → Db → Db) (holder : String) (now : ℕ)
    (texts : Texts) (on_disk : String → String) (writers : Cas → Cas)
    (extract : String → String → String → Result ExtractResult) where
  ingest-quarantines :
      Revokes extract
      → (raw : String) (w : Workspace R)
      → ((ingest builder others holder now texts on_disk writers extract raw w).1.site ≡ w.site)
        × ((r : IngestPublishResult)
            → (ingest builder others holder now texts on_disk writers extract raw w).0 ≡ ok r
            → (r.quarantined ≡ true) × (r.publish.noop ≡ true))
  unfolding ingest
  ingest-quarantines bad raw w =
      elim (Result-cases (receive texts on_disk writers raw w.sources).0) [
        | inr (e, failed) ↦ (ground arith, λ r h. absurd (ground arith))
        | inl (r, done) ↦
            let s = (receive texts on_disk writers raw w.sources).1 in
            elim (Result-cases (compile texts extract r.source_id s).0) [
              | inr (e, failed) ↦ (ground arith, λ r h. absurd (ground arith))
              | inl (c, compiled) ↦
                  ground (arith, compile-revokes texts extract bad r.source_id s c compiled)
            ]
      ]

  -- Where every extraction that returns proposes to revoke, an ingestion changes nothing of the repository
  -- and of the control plane but the lease, and where it returns it says that the source is quarantined
  -- and that nothing was published.
  pub ingest_and_publish-quarantines :
      Revokes extract
      → (raw : String) (w : Workspace R)
      → ((ingest_and_publish builder others holder now texts on_disk writers extract raw
            w).1.site.repo
          ≡ w.site.repo)
        × IsSameButLease
            (ingest_and_publish builder others holder now texts on_disk writers extract raw
              w).1.site.db
            w.site.db
        × ((r : IngestPublishResult)
            → (ingest_and_publish builder others holder now texts on_disk writers extract raw w).0
              ≡ ok r
            → (r.quarantined ≡ true) × (r.publish.noop ≡ true))
  unfolding ingest_and_publish under_lease
  ingest_and_publish-quarantines bad raw w =
      let db = (acquire_lease holder now lease_ttl w.site.db).1 in
      let w1 = record w { site = record w.site { db = db } } in
      let same = acquire-IsSameButLease holder now lease_ttl w.site.db in
      let (kept, says) = ingest-quarantines bad raw w1 in
      let run = ingest builder others holder now texts on_disk writers extract raw w1 in
      let at : run.1.site.db ≡ db = ap (λ (s : Site R). s.db) kept in
      elim (Option-cases (acquire_lease holder now lease_ttl w.site.db).0) [
        | inl refused ↦ (rw refused refl, rw refused same, λ r h. absurd (ground arith))
        | inr (token, granted) ↦ (
          rw (granted, kept) refl,
          rw granted (release-IsSameButLease holder run.1.site.db w.site.db (rw at same)),
          λ r h. says r (ground arith),
        )
      ]
