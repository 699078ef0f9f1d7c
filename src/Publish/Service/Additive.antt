-- ===== src/Publish/Service/Additive.antt =====
-- A publication that is not asked to revoke retracts nothing.
use wiki_spike.Base.{
  ℕ, zero, suc, ◌+◌, ◌-◌, String, ◌≡◌, refl, sym, ap, ◌∙◌, Option, some, List, [], ◌∷◌, map, arith,
  inl, inr, Key-discrete, Bool-cases, Option-cases,
}
use wiki_spike.Base.Sorting.{sorted}
use wiki_spike.Exec.{Result-cases}
use wiki_spike.Table.{find-insert_or_replace}
use wiki_spike.Models.{CompiledClaim}
use wiki_spike.ControlPlane.Schema.{Db, accepted, retracted, resolution_key}
use wiki_spike.ControlPlane.Generations.{referring}
use wiki_spike.ControlPlane.Claims.{add_generation_assertions}
use wiki_spike.ControlPlane.Search.{
  SearchEntry, record_resolution, resolution_state, build_search_index, index_write,
  set_search_pointer,
}
use wiki_spike.ControlPlane.Activation.{activate, enqueue, supersede_row, publish_row}
use wiki_spike.ControlPlane.Activation.Atomic.{
  activated, activate_ready, activate-ok_iff, activate_rolls_back,
}
use wiki_spike.Publish.Builder.{Builder, Candidate, Site}
use wiki_spike.Publish.Prepare.{Prepared, Request, prepare}
use wiki_spike.Publish.Prepare.Safe.{PublicState, public_state, prepare-public}
use wiki_spike.Publish.Service.{
  is_active, activate_candidate, activate_prepared, attempt, settle_attempt, publish_from, publish,
}
use wiki_spike.Publish.Service.Uncontended.{prepare-revoked}
use wiki_spike.Publish.Survivors.{assertion_of, claim_of, sorted_set, distinct}
use wiki_spike.Publish.Materialize.{record_all, search_entries, post_publish}

-- What is retracted was retracted before.
abbrev pub AddsOnly : Db → Db → Type 0
AddsOnly a b =
    (g d : String)
    → resolution_state g d a ≡ some retracted
    → resolution_state g d b ≡ some retracted

pub kept-AddsOnly : (a b : Db) → a.resolutions ≡ b.resolutions → AddsOnly a b
unfolding resolution_state
kept-AddsOnly a b same g d h = rw (sym same) h

resolution-AddsOnly : (id c : String) (db : Db) → AddsOnly (record_resolution id c accepted db).1 db
unfolding record_resolution resolution_state referring
resolution-AddsOnly id c db g d h = ground (
  arith,
  find-insert_or_replace Key-discrete resolution_key (g, d)
      (record { generation_id = id; claim_id = c; state = accepted }) db.resolutions,
)

record_all-AddsOnly :
    (id : String) (cs : List String) (db : Db) → AddsOnly (record_all id accepted cs db).1 db
unfolding record_all
record_all-AddsOnly id [] db g d h = h
record_all-AddsOnly id (c ∷ cs) db g d h =
    let one = (record_resolution id c accepted db).1 in
    let first = resolution-AddsOnly id c db g d in
    elim (Result-cases (record_resolution id c accepted db).0) [
      | inr (e, failed) ↦ ground arith
      | inl (u, done) ↦ ground (arith, record_all-AddsOnly id cs one g d)
    ]

index-resolutions :
    (id : String) (es : List SearchEntry) (db : Db)
    → (build_search_index id es db).1.resolutions ≡ db.resolutions
unfolding build_search_index referring
index-resolutions id [] db = refl
index-resolutions id (e ∷ es) db = ground (arith, index-resolutions id es (index_write id e db))

join-resolutions :
    (g : String) (aids : List String) (db : Db)
    → (add_generation_assertions g aids db).resolutions ≡ db.resolutions
unfolding add_generation_assertions
join-resolutions g [] db = refl
join-resolutions g (aid ∷ aids) db = join-resolutions g aids _

post_publish-AddsOnly :
    (id : String) (cs : List CompiledClaim) (db : Db) → AddsOnly (post_publish id cs [] db).1 db
unfolding post_publish record_all set_search_pointer
post_publish-AddsOnly id cs db g d h =
    let joined = add_generation_assertions id (map assertion_of cs) db in
    let db2 = (record_all id accepted (map claim_of cs) joined).1 in
    let first = kept-AddsOnly joined db (join-resolutions id (map assertion_of cs) db) g d in
    let second = record_all-AddsOnly id (map claim_of cs) joined g d in
    let indexed = build_search_index id (search_entries [] cs) db2 in
    let third = kept-AddsOnly indexed.1 db2 (index-resolutions id (search_entries [] cs) db2) g d in
    let last = kept-AddsOnly (set_search_pointer id indexed.1) indexed.1 refl g d in
    elim (Result-cases (record_all id accepted (map claim_of cs) joined).0) [
      | inr (e, failed) ↦ ground arith
      | inl (u, done) ↦ elim (Result-cases indexed.0) [
        | inr (e, failed) ↦ ground arith
        | inl (v, finished) ↦ ground arith
      ]
    ]

activate-resolutions :
    (id : String) (expected : Option String) (oid : String) (db : Db)
    → (activate id expected oid db).1.resolutions ≡ db.resolutions
unfolding activated enqueue supersede_row publish_row
activate-resolutions id expected oid db = elim (Result-cases (activate id expected oid db).0) [
  | inr (e, failed) ↦
      ap (λ (x : Db). x.resolutions) (activate_rolls_back id expected oid db e failed)
  | inl (u, done) ↦
      let ready = (activate-ok_iff id expected oid db).0 done in
      let moved = activate_ready id expected oid db ready in
      elim (Option-cases expected) [
        | inl first ↦ ground (arith, moved)
        | inr (cur, there) ↦ ground (arith, moved)
      ]
]

activate_candidate-AddsOnly :
    (p : Prepared) (c : Candidate) (oid : String) (db : Db)
    → p.revoked_claim_ids ≡ []
    → AddsOnly (activate_candidate p c oid db).1 db
unfolding activate_candidate
activate_candidate-AddsOnly p c oid db none_revoked g d h =
    let moved = activate c.generation_id p.parent_generation_id oid db in
    let first =
      kept-AddsOnly moved.1 db (activate-resolutions c.generation_id p.parent_generation_id oid db)
        g d in
    let again = post_publish-AddsOnly c.generation_id p.surviving db g d in
    let fresh = post_publish-AddsOnly c.generation_id p.surviving moved.1 g d in
    elim (Bool-cases (is_active c.generation_id db)) [
      | inl active ↦ elim (Result-cases (post_publish c.generation_id p.surviving [] db).0) [
        | inr (e, failed) ↦ ground arith
        | inl (u, done) ↦ ground arith
      ]
      | inr inactive ↦ elim (Result-cases moved.0) [
        | inr (e, failed) ↦ ground arith
        | inl (u, done) ↦
            elim (Result-cases (post_publish c.generation_id p.surviving [] moved.1).0) [
              | inr (e, failed) ↦ ground arith
              | inl (v, finished) ↦ ground arith
            ]
      ]
    ]

activate_prepared-AddsOnly :
    (p : Prepared) (db : Db) → p.revoked_claim_ids ≡ [] → AddsOnly (activate_prepared p db).1 db
unfolding activate_prepared
activate_prepared-AddsOnly p db none_revoked g d h = elim (Option-cases p.candidate) [
  | inl absent ↦ ground arith
  | inr (c, there) ↦ elim (Option-cases p.release_commit_oid) [
    | inl absent ↦ ground arith
    | inr (oid, named) ↦ ground (arith, activate_candidate-AddsOnly p c oid db none_revoked g d)
  ]
]

module _ {R : Type 0} (builder : Builder R) (others : ℕ → Db → Db)
    (quiet : (n : ℕ) (db : Db) → AddsOnly (others n db) db) where
  attempt-AddsOnly :
      (q : Request) (n : ℕ) (s : Site R)
      → q.revokes ≡ []
      → AddsOnly (attempt builder others q n s).1.db s.db
  unfolding attempt public_state sorted distinct
  attempt-AddsOnly q n s trusted g d h =
      let run = prepare builder q n s in
      let first =
        kept-AddsOnly run.1.db s.db
          (ap (λ (x : PublicState). x.resolutions) (prepare-public builder q n s)) g d in
      let second = quiet n run.1.db g d in
      elim (Result-cases run.0) [
        | inr (e, failed) ↦ ground arith
        | inl (p, done) ↦
            let none_revoked =
              prepare-revoked builder others q n s p done ∙ ap sorted_set trusted in
            ground (arith, activate_prepared-AddsOnly p (others n run.1.db) none_revoked g d)
      ]

  publish_from-AddsOnly :
      (left : ℕ) (q : Request) (n : ℕ) (s : Site R)
      → q.revokes ≡ []
      → AddsOnly (publish_from builder others left q n s).1.db s.db
  unfolding publish_from settle_attempt
  publish_from-AddsOnly zero q n s trusted g d h =
      let first = attempt-AddsOnly q n s trusted g d in
      elim (Result-cases (attempt builder others q n s).0) [
        | inl (r, done) ↦ ground arith
        | inr (e, failed) ↦ ground arith
      ]
  publish_from-AddsOnly (suc left) q n s trusted g d h =
      let first = attempt-AddsOnly q n s trusted g d in
      let s' = (attempt builder others q n s).1 in
      elim (Result-cases (attempt builder others q n s).0) [
        | inl (r, done) ↦ ground arith
        | inr (e, failed) ↦ ground (arith, publish_from-AddsOnly left q (n + 1) s' trusted g d)
      ]

  -- A publication that is not asked to revoke retracts no claim in any generation, whatever it returns or
  -- raises, where the other publishers retract none.
  pub publish-AddsOnly :
      (q : Request) (max_retries : ℕ) (s : Site R)
      → q.revokes ≡ []
      → AddsOnly (publish builder others q max_retries s).1.db s.db
  unfolding publish
  publish-AddsOnly q max_retries s trusted = publish_from-AddsOnly (max_retries - 1) q 1 s trusted
