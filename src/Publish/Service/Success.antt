-- ===== src/Publish/Service/Success.antt =====
-- What an activation of a prepared candidate leaves, the first time and when it is repeated.
use wiki_spike.Table.{update, find-update}
use wiki_spike.Base.{
  holds, String, ◌≡◌, refl, Option, none, some, arith, true, false, Option-cases, String-discrete,
  inl, inr, if◌then◌else◌,
}
use wiki_spike.Exec.{ok}
use wiki_spike.ControlPlane.Schema.{
  Db, Generation, generation_key, GenerationState, read_models_ready,
}
use wiki_spike.ControlPlane.Generations.{generation_row, generation_state}
use wiki_spike.ControlPlane.Activation.{
  to_published, to_superseded, publish_row, supersede_row, enqueue,
}
use wiki_spike.ControlPlane.Activation.Atomic.{IsReady, activated, activate_ready}
use wiki_spike.Publish.Builder.{Candidate}
use wiki_spike.Publish.Materialize.Rows.{IsMaterialized, post_publish-IsMaterialized}
use wiki_spike.Publish.Prepare.{Prepared}
use wiki_spike.Publish.Service.{published_result, is_active, activate_candidate, activate_prepared}

-- A row with a state is there.
state-row :
    (id : String) (db : Db) (st : GenerationState)
    → generation_state id db ≡ some st
    → (g : Generation) × (generation_row id db ≡ some g)
state-row id db st h = elim (Option-cases (generation_row id db)) [
  | inl e ↦ absurd (ground arith)
  | inr r ↦ r
]

active-ready :
    (id : String) (db : Db)
    → generation_state id db ≡ some read_models_ready
    → is_active id db ≡ false
active-ready id db h = rw h (ground arith)

abbrev HasRow : String → Db → Type 0
HasRow id db = (g : Generation) × (generation_row id db ≡ some g)

update-HasRow :
    (id j : String) (f : Generation → Generation) (db : Db)
    → ((g : Generation) → generation_key (f g) ≡ generation_key g)
    → HasRow id db
    → HasRow id
        (record db { generations = update String-discrete generation_key j f db.generations })
update-HasRow id j f db keep (g, there) = (
  (if holds (String-discrete j id) then f g else g),
  ground (arith, find-update String-discrete generation_key id j f db.generations keep),
)

activated-HasRow :
    (id : String) (expected : Option String) (oid : String) (db : Db)
    → HasRow id db
    → HasRow id (activated id expected oid db)
unfolding activated enqueue publish_row supersede_row
activated-HasRow id none oid db there =
    update-HasRow id id to_published db (λ g. ground arith) there
activated-HasRow id (some cur) oid db there =
    update-HasRow id cur to_superseded (publish_row id db) (λ g. refl)
      (update-HasRow id id to_published db (λ g. ground arith) there)

active-HasRow : (id : String) (db : Db) → is_active id db ≡ true → HasRow id db
active-HasRow id db h = elim (Option-cases (generation_row id db)) [
  | inl e ↦ absurd (ground arith)
  | inr r ↦ r
]

-- Whose every part is there.
pub record IsComplete (p : Prepared) (c : Candidate) (oid : String) : Type 0 where
  pub changed : p.noop ≡ false
  pub candidate : p.candidate ≡ some c
  pub release : p.release_commit_oid ≡ some oid

complete_parts :
    (p : Prepared) (c : Candidate) (oid : String)
    → IsComplete p c oid
    → activate_prepared p ≡ activate_candidate p c oid
unfolding activate_prepared
complete_parts p c oid whole = rw (whole.changed, whole.candidate, whole.release) refl

-- The result of an activation of `c`, and the database that it leaves where `db` was after the
-- activation proper.
pub record Succeeds (p : Prepared) (c : Candidate) (oid : String) (before db : Db) : Type 0 where
  pub result : (activate_prepared p before).0 ≡ ok (published_result c oid p.attempts)
  pub written :
      IsMaterialized c.generation_id p.surviving p.revoked_claim_ids
        (activate_prepared p before).1
        db

-- A complete preparation whose candidate is ready over its parent is activated: the activation
-- succeeds, and the search index and the resolutions are then written for the new generation.
pub activate_prepared-IsReady :
    (p : Prepared) (c : Candidate) (oid : String) (db : Db)
    → IsComplete p c oid
    → IsReady c.generation_id p.parent_generation_id oid db
    → Succeeds p c oid db (activated c.generation_id p.parent_generation_id oid db)
unfolding activate_candidate
activate_prepared-IsReady p c oid db whole ready =
    let inactive = active-ready c.generation_id db ready.state in
    let after = activated c.generation_id p.parent_generation_id oid db in
    let (g, there) =
      activated-HasRow c.generation_id p.parent_generation_id oid db
        (state-row c.generation_id db read_models_ready ready.state) in
    let (done, rows) =
      post_publish-IsMaterialized c.generation_id p.surviving p.revoked_claim_ids after g there in
    let ran = activate_ready c.generation_id p.parent_generation_id oid db ready in
    record {
      result = rw (complete_parts p c oid whole, inactive, ran, done) refl;
      written = rw (complete_parts p c oid whole, inactive, ran, done) rows;
    }

-- A complete preparation whose candidate is active already is not activated again: the rows of the
-- generation are written once more, and neither the pointer nor the outbox changes.
pub activate_prepared_again :
    (p : Prepared) (c : Candidate) (oid : String) (db : Db)
    → IsComplete p c oid
    → is_active c.generation_id db ≡ true
    → Succeeds p c oid db db
unfolding activate_candidate
activate_prepared_again p c oid db whole active =
    let (g, there) = active-HasRow c.generation_id db active in
    let (done, rows) =
      post_publish-IsMaterialized c.generation_id p.surviving p.revoked_claim_ids db g there in
    record {
      result = rw (complete_parts p c oid whole, active, done) refl;
      written = rw (complete_parts p c oid whole, active, done) rows;
    }
