-- ===== src/ChangeSet/Adapter/Safe.antt =====
-- A changeset that is not published changes nothing that a reader sees.
use wiki_spike.Base.{
  String, true, false, ◌≡◌, ◌≢◌, inl, inr, Option, List, [], ◌∷◌, arith, Bool-cases, Option-cases,
  map,
}
use wiki_spike.Exec.{Error, Result-cases, ok, err}
use wiki_spike.ControlPlane.Schema.{Db, ResolutionState, accepted, retracted}
use wiki_spike.ControlPlane.Search.{SearchEntry, record_resolution, build_search_index, index_write}
use wiki_spike.ControlPlane.Generations.{referring}
use wiki_spike.ControlPlane.Claims.{add_generation_assertions}
use wiki_spike.ControlPlane.Activation.{activate}
use wiki_spike.ControlPlane.Activation.Atomic.{activate_rolls_back}
use wiki_spike.Publish.Builder.{Binding, Builder, Candidate, Site}
use wiki_spike.Publish.Survivors.{assertion_of, claim_of}
use wiki_spike.Publish.Materialize.{record_all, search_entries, post_publish}
use wiki_spike.Publish.Prepare.{Prepared, prepare}
use wiki_spike.Publish.Prepare.Safe.{public_state, prepare-public}
use wiki_spike.Publish.Service.{activate_candidate, activate_prepared, is_cas, is_active}
use wiki_spike.ChangeSet.{AcceptedChangeSet, ResolvedChangeObject, Hashes}
use wiki_spike.ChangeSet.Resolve.{resolve}
use wiki_spike.ChangeSet.Adapter.{
  CoreResult, core_ok, request_for, prepare_changeset, activate_changeset, publish_changeset,
  replay_changeset, current_changeset_matches,
}
use wiki_spike.Models.{CompiledClaim}

-- `_post_publish` raises an IntegrityError at most, which is no conflict.
record_all-cas :
    (id : String) (st : ResolutionState) (cs : List String) (db : Db) (e : Error)
    → (record_all id st cs db).0 ≡ err e
    → is_cas e ≡ false
unfolding record_all record_resolution referring
record_all-cas id st [] db e h = ground arith
record_all-cas id st (c ∷ cs) db e h = elim (Result-cases (record_resolution id c st db).0) [
  | inl (u, done) ↦ ground (arith, record_all-cas id st cs (record_resolution id c st db).1 e)
  | inr (x, failed) ↦ ground arith
]

build_index-cas :
    (id : String) (es : List SearchEntry) (db : Db) (e : Error)
    → (build_search_index id es db).0 ≡ err e
    → is_cas e ≡ false
unfolding build_search_index referring
build_index-cas id [] db e h = ground arith
build_index-cas id (x ∷ xs) db e h = ground (arith, build_index-cas id xs (index_write id x db) e)

post_publish-cas :
    (id : String) (surviving : List CompiledClaim) (revokes : List String) (db : Db) (e : Error)
    → (post_publish id surviving revokes db).0 ≡ err e
    → is_cas e ≡ false
unfolding post_publish
post_publish-cas id surviving revokes db e h =
    let db1 = add_generation_assertions id (map assertion_of surviving) db in
    let run2 = record_all id accepted (map claim_of surviving) db1 in
    let run3 = record_all id retracted revokes run2.1 in
    let entries = search_entries [] surviving in
    elim (Result-cases run2.0) [
      | inr (x, failed) ↦
          ground (arith, record_all-cas id accepted (map claim_of surviving) db1 x failed)
      | inl (u, done2) ↦ elim (Result-cases run3.0) [
        | inr (x, failed) ↦ ground (arith, record_all-cas id retracted revokes run2.1 x failed)
        | inl (v, done3) ↦ elim (Result-cases (build_search_index id entries run3.1).0) [
          | inr (x, failed) ↦ ground (arith, build_index-cas id entries run3.1 x failed)
          | inl (z, done4) ↦ absurd (ground arith)
        ]
      ]
    ]

candidate-cas :
    (p : Prepared) (c : Candidate) (oid : String) (db : Db) (e : Error)
    → (activate_candidate p c oid db).0 ≡ err e
    → is_cas e ≡ true
    → (activate_candidate p c oid db).1 ≡ db
unfolding activate_candidate
candidate-cas p c oid db e h cas = elim (Bool-cases (is_active c.generation_id db)) [
  | inl active ↦
      absurd (ground (arith, post_publish-cas c.generation_id p.surviving p.revoked_claim_ids db e))
  | inr inactive ↦
      let run = activate c.generation_id p.parent_generation_id oid db in
      elim (Result-cases run.0) [
        | inl (u, done) ↦ absurd (
            ground
              (arith, post_publish-cas c.generation_id p.surviving p.revoked_claim_ids run.1 e))
        | inr (x, failed) ↦
            let back = activate_rolls_back c.generation_id p.parent_generation_id oid db x failed in
            ground arith
      ]
]

-- A conflict in the activation leaves the database as it was.
activate_prepared-cas :
    (p : Prepared) (db : Db) (e : Error)
    → (activate_prepared p db).0 ≡ err e
    → is_cas e ≡ true
    → (activate_prepared p db).1 ≡ db
unfolding activate_prepared
activate_prepared-cas p db e h cas = elim (Option-cases p.candidate) [
  | inl none_built ↦ ground arith
  | inr (c, built) ↦ elim (Option-cases p.release_commit_oid) [
    | inl unreleased ↦ ground arith
    | inr (oid, released) ↦ ground (arith, candidate-cas p c oid db e)
  ]
]

module _ {R : Type 0} (builder : Builder R) (hashes : Hashes)
    (resolver : String → String → Option ResolvedChangeObject)
    (manifest_binding : String → String → R → Option Binding) where
  prepare_changeset-public :
      (c : AcceptedChangeSet) (s : Site R)
      → public_state (prepare_changeset builder hashes resolver manifest_binding c s).1.db
        ≡ public_state s.db
  unfolding prepare_changeset
  prepare_changeset-public c s = elim (Result-cases (resolve hashes resolver c)) [
    | inr (e, failed) ↦ ground arith
    | inl (items, done) ↦
        let q = request_for builder hashes resolver manifest_binding c items in
        let same = prepare-public builder q 1 s in
        elim (Result-cases (prepare builder q 1 s).0) [
          | inr (e, failed) ↦ ground arith
          | inl (p, prepared) ↦ ground arith
        ]
  ]

  activate_changeset-public :
      (c : AcceptedChangeSet) (p : Prepared) (s : Site R) (r : CoreResult)
      → (activate_changeset builder hashes resolver manifest_binding c p s).0 ≡ ok r
      → r.status ≢ core_ok
      → (activate_changeset builder hashes resolver manifest_binding c p s).1.db ≡ s.db
  unfolding activate_changeset
  activate_changeset-public c p s r h other = elim (Result-cases (activate_prepared p s.db).0) [
    | inl (a, done) ↦ ground arith
    | inr (e, failed) ↦ ground (arith, activate_prepared-cas p s.db e failed)
  ]

  -- A changeset whose publication returns without being ok, be it rejected or to be retried, has changed
  -- nothing that queries, the mirror or other publishers go by, where the others changed none of it.
  pub publish_changeset-public :
      (others : Db → Db)
      → ((db : Db) → public_state (others db) ≡ public_state db)
      → (c : AcceptedChangeSet) (s : Site R) (r : CoreResult)
      → (publish_changeset builder hashes resolver manifest_binding others c s).0 ≡ ok r
      → r.status ≢ core_ok
      → public_state (publish_changeset builder hashes resolver manifest_binding others c s).1.db
        ≡ public_state s.db
  unfolding publish_changeset replay_changeset
  publish_changeset-public others quiet c s r h other =
      let run = prepare_changeset builder hashes resolver manifest_binding c s in
      let same = prepare_changeset-public c s in
      elim (Option-cases (current_changeset_matches builder hashes resolver manifest_binding c s)) [
        | inr (id, there) ↦ absurd (ground arith)
        | inl new ↦ elim (Result-cases run.0) [
          | inr (e, failed) ↦ ground arith
          | inl (p, done) ↦
              let site = record run.1 { db = others run.1.db } in
              let kept = quiet run.1.db in ground (arith, activate_changeset-public c p site r)
        ]
      ]
