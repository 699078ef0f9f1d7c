-- ===== src/Workspace/Additive.antt =====
-- Only the trusted path retracts: an ingestion never does.
use wiki_spike.Base.{ℕ, String, ◌≡◌, refl, List, [], ◌∷◌, arith, inl, inr, Option-cases}
use wiki_spike.Exec.{Result, Result-cases}
use wiki_spike.ControlPlane.Schema.{Db}
use wiki_spike.ControlPlane.Lease.{acquire_lease, release_lease}
use wiki_spike.Publish.Builder.{Builder}
use wiki_spike.Publish.Service.{publish}
use wiki_spike.Publish.Service.Additive.{AddsOnly, kept-AddsOnly, publish-AddsOnly}
use wiki_spike.Sources.Store.{Cas}
use wiki_spike.Sources.Ingest.{Texts, ExtractResult, ReceiveResult, CompileResult, receive, compile}
use wiki_spike.Workspace.{
  Workspace, request, default_retries, lease_ttl, under_lease, publish_compiled, ingest,
  ingest_and_publish,
}

acquire-resolutions :
    (h : String) (now ttl : ℕ) (db : Db)
    → (acquire_lease h now ttl db).1.resolutions ≡ db.resolutions
unfolding acquire_lease
acquire-resolutions h now ttl db = ground arith

release-resolutions : (h : String) (db : Db) → (release_lease h db).resolutions ≡ db.resolutions
unfolding release_lease
release-resolutions h db = ground arith

module _ {R : Type 0} (builder : Builder R) (others : ℕ → Db → Db) (holder : String) (now : ℕ)
    (texts : Texts) (on_disk : String → String) (writers : Cas → Cas)
    (extract : String → String → String → Result ExtractResult)
    (quiet : (n : ℕ) (db : Db) → AddsOnly (others n db) db) where
  publish_compiled-AddsOnly :
      (r : ReceiveResult) (c : CompileResult) (revokes : List String) (w : Workspace R)
      → AddsOnly
          (publish_compiled builder others holder now texts on_disk writers extract r c revokes
            w).1.site.db
          w.site.db
  publish_compiled-AddsOnly r c (x ∷ xs) w g d h = h
  publish_compiled-AddsOnly r c [] w g d h =
      let q = request c.claims r.content_hash [] in
      let kept = publish-AddsOnly builder others quiet q default_retries w.site refl g d in
      elim (Result-cases (publish builder others q default_retries w.site).0) [
        | inr (e, failed) ↦ ground arith
        | inl (p, done) ↦ ground arith
      ]

  ingest-AddsOnly :
      (raw : String) (w : Workspace R)
      → AddsOnly
          (ingest builder others holder now texts on_disk writers extract raw w).1.site.db
          w.site.db
  unfolding ingest
  ingest-AddsOnly raw w g d h =
      elim (Result-cases (receive texts on_disk writers raw w.sources).0) [
        | inr (e, failed) ↦ ground arith
        | inl (r, done) ↦
            let s = (receive texts on_disk writers raw w.sources).1 in
            let compilation = compile texts extract r.source_id s in
            elim (Result-cases compilation.0) [
              | inr (e, failed) ↦ ground arith
              | inl (c, compiled) ↦ ground (
                arith,
                publish_compiled-AddsOnly r c c.revokes (record w { sources = compilation.1 }) g d,
              )
            ]
      ]

  -- An ingestion retracts no claim in any generation, whatever the source says and whatever it returns or
  -- raises, where the other publishers retract none.
  pub ingest_and_publish-AddsOnly :
      (raw : String) (w : Workspace R)
      → AddsOnly
          (ingest_and_publish builder others holder now texts on_disk writers extract raw
            w).1.site.db
          w.site.db
  unfolding ingest_and_publish under_lease
  ingest_and_publish-AddsOnly raw w g d h =
      let db = (acquire_lease holder now lease_ttl w.site.db).1 in
      let w1 = record w { site = record w.site { db = db } } in
      let after =
        (ingest builder others holder now texts on_disk writers extract raw w1).1.site.db in
      let first =
        kept-AddsOnly db w.site.db (acquire-resolutions holder now lease_ttl w.site.db) g d in
      let second = ingest-AddsOnly raw w1 g d in
      let third =
        kept-AddsOnly (release_lease holder after) after (release-resolutions holder after) g d in
      elim (Option-cases (acquire_lease holder now lease_ttl w.site.db).0) [
        | inl refused ↦ ground arith
        | inr (token, granted) ↦ ground arith
      ]
