-- ===== src/Publish/Prepare/Registered.antt =====
-- The rows that the registration of a candidate leaves.
use wiki_spike.Base.{
  ℕ, String, ◌≡◌, ◌≢◌, refl, Option, none, some, List, [], ◌∷◌, arith, holds, if◌then◌else◌,
  String-discrete, Key-discrete, ◌∙◌, text_ne, true,
}
use wiki_spike.Exec.{ok}
use wiki_spike.Table.{find-insert_or_ignore, find-insert_or_replace, find-update}
use wiki_spike.Models.{CompiledClaim}
use wiki_spike.ControlPlane.Schema.{
  Db, Generation, ReadModel, validated, generation_key, read_model_key,
}
use wiki_spike.ControlPlane.Generations.{
  generation_row, referring, register_generation, mark_read_model, set_read_models_ready, to_ready,
  required_from_manifest, required, next_seq,
}
use wiki_spike.ControlPlane.Activation.{release_commit, read_model_row}
use wiki_spike.ControlPlane.Activation.Atomic.{IsReady}
use wiki_spike.ControlPlane.Claims.{upsert_all, upsert_claim_and_assertion}
use wiki_spike.Publish.Builder.{Builder, Candidate, Site}
use wiki_spike.Publish.Prepare.{register}
use wiki_spike.ControlPlane.Invariant.Frame.{mark-SameCore, SameCore-trans}

abbrev new_row : Candidate → Option String → String → String → ℕ → Generation
new_row c parent hash oid seq = record {
  generation_id = c.generation_id;
  parent_generation_id = parent;
  candidate_commit_oid = c.commit_oid;
  manifest_hash = hash;
  manifest_json = c.manifest;
  release_commit_oid = some oid;
  state = validated;
  seq = seq;
}

register-row :
    (c : Candidate) (parent : Option String) (hash oid : String) (db : Db)
    → generation_row c.generation_id db ≡ none
    → generation_row c.generation_id
        (register_generation c.generation_id parent c.commit_oid hash c.manifest (some oid) db)
      ≡ some (new_row c parent hash oid (next_seq db.generations))
unfolding register_generation
register-row c parent hash oid db fresh = ground (
  arith,
  find-insert_or_ignore String-discrete generation_key c.generation_id
      (new_row c parent hash oid (next_seq db.generations)) db.generations,
)

set_ready-row :
    (id : String) (db : Db) (g : Generation)
    → generation_row id db ≡ some g
    → generation_row id (set_read_models_ready id db) ≡ some (to_ready g)
unfolding set_read_models_ready
set_ready-row id db g there = ground (
  arith,
  find-update String-discrete generation_key id id to_ready db.generations (λ g. ground arith),
)

mark-ok :
    (id name digest : String) (db : Db) (g : Generation)
    → generation_row id db ≡ some g
    → (mark_read_model id name digest db).0 ≡ ok tt
unfolding mark_read_model referring
mark-ok id name digest db g there = ground arith

mark-row :
    (id name digest : String) (db : Db)
    → generation_row id (mark_read_model id name digest db).1 ≡ generation_row id db
unfolding mark_read_model referring
mark-row id name digest db = ground arith

abbrev model_row : String → String → String → ReadModel
model_row id name digest = record {
  generation_id = id;
  model_name = name;
  is_ready = true;
  artifact_digest = some digest;
}

mark-model :
    (id name other digest : String) (db : Db) (g : Generation)
    → generation_row id db ≡ some g
    → read_model_row id other (mark_read_model id name digest db).1 ≡ (
        if holds (String-discrete name other)
        then some (model_row id name digest)
        else read_model_row id other db)
unfolding mark_read_model referring read_model_row
mark-model id name other digest db g there = ground (
  arith,
  find-insert_or_replace Key-discrete read_model_key (id, other) (model_row id name digest)
      db.read_models,
)

set_ready-model :
    (id name : String) (db : Db)
    → read_model_row id name (set_read_models_ready id db) ≡ read_model_row id name db
unfolding set_read_models_ready read_model_row
set_ready-model id name db = refl

required-two :
    (id : String) (db : Db) (g : Generation) (w c : String)
    → generation_row id db ≡ some g
    → g.manifest_json.wiki_files_root ≡ some w
    → g.manifest_json.citation_index_digest ≡ some c
    → required_from_manifest id db ≡ ("wiki_files", w) ∷ ("citation_index", c) ∷ []
unfolding required_from_manifest required
required-two id db g w c there wiki cites = ground arith

release-row :
    (id : String) (db : Db) (g : Generation)
    → generation_row id db ≡ some g
    → release_commit id db ≡ g.release_commit_oid
unfolding release_commit
release-row id db g there = ground arith

set_ready-current :
    (id : String) (db : Db)
    → (set_read_models_ready id db).current_generation_id ≡ db.current_generation_id
unfolding set_read_models_ready
set_ready-current id db = refl

register-current :
    (c : Candidate) (parent : Option String) (hash oid : String) (db : Db)
    → (register_generation c.generation_id parent c.commit_oid hash c.manifest
        (some oid)
        db).current_generation_id
      ≡ db.current_generation_id
unfolding register_generation
register-current c parent hash oid db = refl

-- The record of what a registration leaves.
registered-IsReady :
    (c : Candidate) (parent : Option String) (hash oid : String) (db : Db)
    → generation_row c.generation_id db ≡ none
    → db.current_generation_id ≡ parent
    → c.manifest.wiki_files_root ≡ some c.wiki_files_root
    → c.manifest.citation_index_digest ≡ some c.citation_index_digest
    → oid ≢ ""
    → let id = c.generation_id in
      let db1 = register_generation id parent c.commit_oid hash c.manifest (some oid) db in
      let marked = mark_read_model id "wiki_files" c.wiki_files_root db1 in
      let cited = mark_read_model id "citation_index" c.citation_index_digest marked.1 in
      (marked.0 ≡ ok tt)
      × (cited.0 ≡ ok tt)
      × IsReady id parent oid (set_read_models_ready id cited.1)
unfolding String-discrete
registered-IsReady c parent hash oid db fresh at wiki cites named =
    let id = c.generation_id in
    let db1 = register_generation id parent c.commit_oid hash c.manifest (some oid) db in
    let marked = mark_read_model id "wiki_files" c.wiki_files_root db1 in
    let cited = mark_read_model id "citation_index" c.citation_index_digest marked.1 in
    let row = new_row c parent hash oid (next_seq db.generations) in
    let r1 = register-row c parent hash oid db fresh in
    let r2 = mark-row id "wiki_files" c.wiki_files_root db1 ∙ r1 in
    let r3 = mark-row id "citation_index" c.citation_index_digest marked.1 ∙ r2 in
    let r4 = set_ready-row id cited.1 row r3 in
    let m1 = mark-model id "wiki_files" "wiki_files" c.wiki_files_root db1 row r1 in
    let m2 = mark-model id "citation_index" "wiki_files" c.citation_index_digest marked.1 row r2 in
    let m3 =
      mark-model id "citation_index" "citation_index" c.citation_index_digest marked.1 row r2 in
    let e1 = set_ready-model id "wiki_files" cited.1 in
    let e2 = set_ready-model id "citation_index" cited.1 in
    let models =
      required-two id (set_read_models_ready id cited.1) (to_ready row) c.wiki_files_root
        c.citation_index_digest r4 wiki cites in
    let kept =
      SameCore-trans (mark-SameCore id "citation_index" c.citation_index_digest marked.1)
        (mark-SameCore id "wiki_files" c.wiki_files_root db1) in
    let differ = text_ne "citation_index" "wiki_files" refl in
    (
      mark-ok id _ _ db1 row r1,
      mark-ok id _ _ marked.1 row r2,
      record {
        requires = λ e. ground arith;
        parent =
            set_ready-current id cited.1
            ∙ kept.current
            ∙ register-current c parent hash oid db
            ∙ at;
        state = rw r4 refl;
        release = release-row id (set_read_models_ready id cited.1) (to_ready row) r4;
        release_named = named;
        bound = rw models (
          record {
            row = model_row id "wiki_files" c.wiki_files_root;
            found = e1 ∙ m2 ∙ m1;
            ready = refl;
            digest = refl;
          },
          (
            record {
              row = model_row id "citation_index" c.citation_index_digest;
              found = e2 ∙ m3;
              ready = refl;
              digest = refl;
            },
            tt,
          ),
        );
      },
    )

pub upsert-generations :
    (cs : List CompiledClaim) (db : Db) → (upsert_all cs db).generations ≡ db.generations
unfolding upsert_all upsert_claim_and_assertion
upsert-generations [] db = refl
upsert-generations (c ∷ cs) db = upsert-generations cs (upsert_claim_and_assertion c db)

pub upsert-current :
    (cs : List CompiledClaim) (db : Db)
    → (upsert_all cs db).current_generation_id ≡ db.current_generation_id
unfolding upsert_all upsert_claim_and_assertion
upsert-current [] db = refl
upsert-current (c ∷ cs) db = upsert-current cs (upsert_claim_and_assertion c db)

module _ {R : Type 0} (builder : Builder R) where
  pub register-IsReady :
      (parent : Option String) (c : Candidate) (oid : String) (s : Site R)
      → generation_row c.generation_id s.db ≡ none
      → s.db.current_generation_id ≡ parent
      → c.manifest.wiki_files_root ≡ some c.wiki_files_root
      → c.manifest.citation_index_digest ≡ some c.citation_index_digest
      → oid ≢ ""
      → ((register builder parent c oid s).0 ≡ ok tt)
        × IsReady c.generation_id parent oid (register builder parent c oid s).1.db
  unfolding register
  register-IsReady parent c oid s fresh at wiki cites named =
      let (marked, cited, ready) =
        registered-IsReady c parent (builder.manifest_hash c) oid s.db fresh at wiki cites named in
      (rw (marked, cited) refl, rw (marked, cited) ready)
