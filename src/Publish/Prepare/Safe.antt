-- ===== src/Publish/Prepare/Safe.antt =====
-- A preparation writes claims and unpublished generations, and nothing that a reader sees.
use wiki_spike.Base.{ℕ, String, ◌≡◌, refl, Option, none, some, List, [], ◌∷◌, arith, inl, inr}
use wiki_spike.Publish.Release.{build_release_commit}
use wiki_spike.Exec.{Result-cases}
use wiki_spike.Models.{CompiledClaim}
use wiki_spike.ControlPlane.Schema.{
  Db, Publication, OutboxEvent, Resolution, IndexEntry, Membership, PublisherLease,
}
use wiki_spike.ControlPlane.Generations.{
  referring, register_generation, mark_read_model, set_read_models_ready,
}
use wiki_spike.ControlPlane.Claims.{upsert_claim_and_assertion, upsert_all}
use wiki_spike.Publish.Builder.{Builder, Candidate, Site}
use wiki_spike.Publish.Survivors.{decisions, survivors}
use wiki_spike.Publish.Prepare.{
  Request, if_named, load_snapshot, parent_claims, register, build, prepare,
}

-- What queries, the mirror and other publishers go by.
pub record PublicState : Type 0 where
  pub publication : Publication
  pub outbox : List OutboxEvent
  pub last_event_id : ℕ
  pub resolutions : List Resolution
  pub search_index : List IndexEntry
  pub memberships : List Membership
  pub lease : PublisherLease

unfoldable pub public_state : Db → PublicState
public_state db = record {
  publication = db.publication;
  outbox = db.outbox;
  last_event_id = db.last_event_id;
  resolutions = db.resolutions;
  search_index = db.search_index;
  memberships = db.memberships;
  lease = db.lease;
}

upsert-public :
    (cs : List CompiledClaim) (db : Db) → public_state (upsert_all cs db) ≡ public_state db
unfolding public_state upsert_all upsert_claim_and_assertion
upsert-public [] db = refl
upsert-public (c ∷ cs) db = upsert-public cs (upsert_claim_and_assertion c db)

mark-public :
    (id name digest : String) (db : Db)
    → public_state (mark_read_model id name digest db).1 ≡ public_state db
unfolding public_state mark_read_model referring
mark-public id name digest db = ground arith

register-public-generation :
    (c : Candidate) (parent : Option String) (h oid : String) (db : Db)
    → public_state
        (register_generation c.generation_id parent c.commit_oid h c.manifest (some oid) db)
      ≡ public_state db
unfolding public_state register_generation
register-public-generation c parent h oid db = refl

set_ready-public :
    (id : String) (db : Db) → public_state (set_read_models_ready id db) ≡ public_state db
unfolding public_state set_read_models_ready
set_ready-public id db = refl

module _ {R : Type 0} (builder : Builder R) where
  register-public :
      (parent : Option String) (c : Candidate) (oid : String) (s : Site R)
      → public_state (register builder parent c oid s).1.db ≡ public_state s.db
  unfolding register
  register-public parent c oid s =
      let db1 =
        register_generation c.generation_id parent c.commit_oid (builder.manifest_hash c) c.manifest
          (some oid) s.db in
      let db2 = (mark_read_model c.generation_id "wiki_files" c.wiki_files_root db1).1 in
      let db3 = (mark_read_model c.generation_id "citation_index" c.citation_index_digest db2).1 in
      let e1 = register-public-generation c parent (builder.manifest_hash c) oid s.db in
      let e2 = mark-public c.generation_id "wiki_files" c.wiki_files_root db1 in
      let e3 = mark-public c.generation_id "citation_index" c.citation_index_digest db2 in
      let e4 = set_ready-public c.generation_id db3 in ground arith

  load-state :
      (id : String) (commit : Option String) (s : Site R)
      → (load_snapshot builder id commit s).1 ≡ s
  unfolding load_snapshot
  load-state id none s = refl
  load-state id (some commit) s = ground arith

  pub parent_claims-state :
      (parent : Option String) (s : Site R) → (parent_claims builder parent s).1 ≡ s
  unfolding parent_claims
  parent_claims-state none s = refl
  parent_claims-state (some id) s = load-state id _ s

  build-public :
      (q : Request) (n : ℕ) (parent : Option String) (claims : List CompiledClaim) (s : Site R)
      → public_state (build builder q n parent claims s).1.db ≡ public_state s.db
  unfolding build
  build-public q n parent claims s =
      let root = builder.accepted_claim_set_root (decisions claims) in
      let built =
        builder.build_candidate claims parent q.source_snapshot_hash root q.changeset_binding
          s.repo in
      elim (Result-cases built.0) [
        | inr (e, failed) ↦ ground arith
        | inl (c, done) ↦
            let previous = if_named parent s.db.current_release_commit_oid in
            let released = build_release_commit builder c previous built.1 in
            elim (Result-cases released.0) [
              | inr (e, failed) ↦ ground arith
              | inl (oid, signed) ↦
                  ground (arith, register-public parent c oid (record s { repo = released.1 }))
            ]
      ]

  -- A preparation, whatever it returns or raises, changes nothing that queries, the mirror or other
  -- publishers go by: the publication pointers, the outbox, the resolutions, the search index, the
  -- assertions of the generations and the lease stay.
  pub prepare-public :
      (q : Request) (n : ℕ) (s : Site R)
      → public_state (prepare builder q n s).1.db ≡ public_state s.db
  unfolding prepare
  prepare-public q n s =
      let parent = s.db.current_generation_id in
      let stored = record s { db = upsert_all q.new_claims s.db } in
      let same = upsert-public q.new_claims s.db in
      let read = parent_claims-state parent stored in
      elim (Result-cases (parent_claims builder parent stored).0) [
        | inr (e, failed) ↦ ground arith
        | inl (parents, done) ↦
            ground
              (arith, build-public q n parent (survivors parents q.new_claims q.revokes) stored)
      ]
