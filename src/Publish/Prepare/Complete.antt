-- ===== src/Publish/Prepare/Complete.antt =====
-- What a preparation registers is ready to be activated.
use wiki_spike.Base.{
  ℕ, String, ◌≡◌, ◌≢◌, refl, ap, Option, none, some, List, arith, inl, inr, false,
}
use wiki_spike.Exec.{Result, Result-cases, ok}
use wiki_spike.Models.{CompiledClaim}
use wiki_spike.ControlPlane.Generations.{generation_row}
use wiki_spike.ControlPlane.Activation.Atomic.{IsReady}
use wiki_spike.Publish.Release.{build_release_commit}
use wiki_spike.Publish.Survivors.{decisions, survivors}
use wiki_spike.Publish.Builder.{Builder, Candidate, Site, IsFaithful}
use wiki_spike.Publish.Prepare.{Request, Prepared, prepared, if_named, register, build, prepare}
use wiki_spike.Publish.Prepare.Registered.{register-IsReady, upsert-current, upsert-generations}
use wiki_spike.Publish.Prepare.Runs.{stored, prepare_ok}

module _ {R : Type 0} (builder : Builder R) where
  abbrev candidate_for : Request → Option String → List CompiledClaim → R → Result Candidate × R
  candidate_for q parent claims =
      builder.build_candidate claims parent q.source_snapshot_hash
        (builder.accepted_claim_set_root (decisions claims)) q.changeset_binding

  -- What a successful `build` did.
  record Built (q : Request) (n : ℕ) (parent : Option String) (claims : List CompiledClaim)
      (s : Site R) (p : Prepared) : Type 0 where
    candidate : Candidate
    oid : String
    site : Site R
    of_builder : (candidate_for q parent claims s.repo).0 ≡ ok candidate
    is_prepared : p ≡ prepared builder q n parent claims (some candidate) (some oid) false
    same_db : site.db ≡ s.db
    run : (build builder q n parent claims s).1 ≡ (register builder parent candidate oid site).1

  build_ok :
      (q : Request) (n : ℕ) (parent : Option String) (claims : List CompiledClaim) (s : Site R)
      (p : Prepared)
      → (build builder q n parent claims s).0 ≡ ok p
      → Built q n parent claims s p
  unfolding build
  build_ok q n parent claims s p h =
      let built = candidate_for q parent claims s.repo in
      elim (Result-cases built.0) [
        | inr (e, failed) ↦ absurd (ground arith)
        | inl (c, done) ↦
            let previous = if_named parent s.db.current_release_commit_oid in
            let released = build_release_commit builder c previous built.1 in
            elim (Result-cases released.0) [
              | inr (e, failed) ↦ absurd (ground arith)
              | inl (oid, signed) ↦
                  let site = record s { repo = released.1 } in
                  elim (Result-cases (register builder parent c oid site).0) [
                    | inr (e, failed) ↦ absurd (ground arith)
                    | inl (u, registered) ↦ record {
                      candidate = c;
                      oid = oid;
                      site = site;
                      of_builder = done;
                      is_prepared = ground arith;
                      same_db = refl;
                      run = ground arith;
                    }
                  ]
            ]
      ]

  build-IsReady :
      IsFaithful builder
      → (q : Request) (n : ℕ) (parent : Option String) (claims : List CompiledClaim) (s : Site R)
        (p : Prepared)
      → s.db.current_generation_id ≡ parent
      → (build builder q n parent claims s).0 ≡ ok p
      → (c : Candidate) (oid : String) → p.candidate ≡ some c
      → p.release_commit_oid ≡ some oid
      → generation_row c.generation_id s.db ≡ none
      → oid ≢ ""
      → IsReady c.generation_id p.parent_generation_id oid (build builder q n parent claims s).1.db
  build-IsReady faithful q n parent claims s p at h c oid is_c is_oid fresh named =
      let b = build_ok q n parent claims s p h in
      let e = ap (λ (x : Prepared). x.candidate) b.is_prepared in
      let f = ap (λ (x : Prepared). x.release_commit_oid) b.is_prepared in
      let same_c : c ≡ b.candidate = ground arith in
      let same_oid : oid ≡ b.oid = ground arith in
      let wiki = faithful.manifest_wiki _ _ _ _ _ _ b.candidate b.of_builder in
      let cites = faithful.manifest_citation _ _ _ _ _ _ b.candidate b.of_builder in
      rw (b.run, same_c, same_oid, b.is_prepared)
        (register-IsReady builder parent b.candidate b.oid b.site (rw (b.same_db, ← same_c) fresh)
          (rw b.same_db at) wiki cites (rw (← same_oid) named)).1

  -- With a builder that is faithful, a preparation that built a candidate under a generation id that
  -- was free, and a release whose commit id is not empty, leaves that candidate ready to be activated
  -- over the parent that the preparation read.
  pub prepare-IsReady :
      IsFaithful builder
      → (q : Request) (n : ℕ) (s : Site R) (p : Prepared) → (prepare builder q n s).0 ≡ ok p
      → (c : Candidate) (oid : String) → p.candidate ≡ some c
      → p.release_commit_oid ≡ some oid
      → generation_row c.generation_id s.db ≡ none
      → oid ≢ ""
      → IsReady c.generation_id p.parent_generation_id oid (prepare builder q n s).1.db
  prepare-IsReady faithful q n s p h c oid is_c is_oid fresh named =
      let run = prepare_ok builder q n s p h in
      let claims = survivors run.parents q.new_claims q.revokes in
      let lacks : (p.candidate ≡ none) → (p.candidate ≡ some c) → ⊥ = λ e f. ground arith in
      elim run.outcome [
        | inl (kept, empty, left) ↦ absurd (lacks (ap (λ (x : Prepared). x.candidate) empty) is_c)
        | inr (changed, done, left) ↦ rw left (
            build-IsReady faithful q n s.db.current_generation_id claims (stored builder q s) p
              (upsert-current q.new_claims s.db) done c oid is_c is_oid
              (ground (arith, upsert-generations q.new_claims s.db)) named)
      ]
