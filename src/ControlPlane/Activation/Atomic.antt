-- ===== src/ControlPlane/Activation/Atomic.antt =====
-- Activation happens exactly when the candidate is complete, and otherwise changes nothing.
use wiki_spike.Base.{
  String, ◌≡◌, ◌≢◌, refl, ap, ◌⊎◌, inl, inr, ◌↔◌, Option, none, some, List, [], ◌∷◌, true, arith,
  All, Option-cases,
}
use wiki_spike.Exec.{Error, Result, ok, err, pointer_moved, transaction_rolls_back}
use wiki_spike.ControlPlane.Schema.{Db, read_models_ready, ReadModel}
use wiki_spike.ControlPlane.Generations.{generation_state, required_from_manifest}
use wiki_spike.ControlPlane.Activation.{
  release_commit, read_model_row, check_read_model, check_read_models, publish_row, supersede_row,
  enqueue, activation, activate,
}

-- The read model is built, and its artifact is the one that the signed manifest names.
pub record IsBound (id : String) (db : Db) (model : String × String) : Type 0 where
  pub row : ReadModel
  pub found : read_model_row id model.0 db ≡ some row
  pub ready : row.is_ready ≡ true
  pub digest : row.artifact_digest ≡ some model.1

check_one :
    (id name digest : String) (db : Db)
    → check_read_model name digest (read_model_row id name db) ≡ ok tt
    → IsBound id db (name, digest)
unfolding check_read_model
check_one id name digest db h = bound (Option-cases (read_model_row id name db))
  where
    bound :
        (read_model_row id name db ≡ none)
          ⊎ ((m : ReadModel) × (read_model_row id name db ≡ some m))
        → IsBound id db (name, digest)
    bound (inl e) = absurd (ground arith)
    bound (inr (m, e)) = record { row = m; found = e; ready = ground arith; digest = ground arith }

check_one_bound :
    (id : String) (model : String × String) (db : Db)
    → IsBound id db model
    → check_read_model model.0 model.1 (read_model_row id model.0 db) ≡ ok tt
unfolding check_read_model
check_one_bound id model db b = ground arith

check-state :
    (id : String) (models : List (String × String)) (db : Db)
    → (check_read_models id models db).1 ≡ db
unfolding check_read_models
check-state id [] db = refl
check-state id ((name, digest) ∷ rest) db = ground (arith, check-state id rest db)

check-ok :
    (id : String) (models : List (String × String)) (db : Db)
    → All (IsBound id db) models
    → (check_read_models id models db).0 ≡ ok tt
unfolding check_read_models
check-ok id [] db b = refl
check-ok id ((name, digest) ∷ rest) db b =
    rw (check_one_bound id (name, digest) db b.0) (check-ok id rest db b.1)

check-IsBound :
    (id : String) (models : List (String × String)) (db : Db)
    → (check_read_models id models db).0 ≡ ok tt
    → All (IsBound id db) models
unfolding check_read_models
check-IsBound id [] db h = tt
check-IsBound id ((name, digest) ∷ rest) db h =
    (check_one id name digest db (ground arith), check-IsBound id rest db (ground arith))

-- What must hold for `id` to be activated over `expected`.
pub record IsReady (id : String) (expected : Option String) (oid : String) (db : Db) : Type 0 where
  pub requires : required_from_manifest id db ≢ []
  pub parent : db.current_generation_id ≡ expected
  pub state : generation_state id db ≡ some read_models_ready
  pub release : release_commit id db ≡ some oid
  pub release_named : oid ≢ ""
  pub bound : All (IsBound id db) (required_from_manifest id db)

-- The database after the activation.
unfoldable pub activated : String → Option String → String → Db → Db
activated id expected oid db =
    let rows = supersede_row expected (publish_row id db) in
    enqueue id (record rows {
      publication = record db.publication {
        current_generation_id = some id;
        current_release_commit_oid = some oid;
      };
    })

supersede-publication :
    (cur : Option String) (db : Db) → (supersede_row cur db).publication ≡ db.publication
unfolding supersede_row
supersede-publication none db = refl
supersede-publication (some g) db = refl

publish-publication : (id : String) (db : Db) → (publish_row id db).publication ≡ db.publication
unfolding publish_row
publish-publication id db = refl

activation_ok :
    (id : String) (expected : Option String) (oid : String) (db : Db)
    (models : List (String × String))
    → db.current_generation_id ≡ expected
    → generation_state id db ≡ some read_models_ready
    → release_commit id db ≡ some oid
    → oid ≢ ""
    → (check_read_models id models db).0 ≡ ok tt
    → activation id expected oid models db ≡ (ok tt, activated id expected oid db)
unfolding activation activated
activation_ok id expected oid db models p s r n c = ground (
  arith,
  check-state id models db,
  supersede-publication db.current_generation_id (publish_row id db),
  publish-publication id db,
)

activation_needs :
    (id : String) (expected : Option String) (oid : String) (db : Db)
    (models : List (String × String))
    → (activation id expected oid models db).0 ≡ ok tt
    → (db.current_generation_id ≡ expected)
      × (generation_state id db ≡ some read_models_ready)
      × (release_commit id db ≡ some oid)
      × (oid ≢ "")
      × ((check_read_models id models db).0 ≡ ok tt)
unfolding activation
activation_needs id expected oid db models h = ground (
  arith,
  check-state id models db,
  supersede-publication db.current_generation_id (publish_row id db),
  publish-publication id db,
)

-- The activation of a candidate that is ready returns, and leaves the database that `activated` makes:
-- with the pointer moved, the candidate published, its parent superseded and one outbox event more.
pub activate_ready :
    (id : String) (expected : Option String) (oid : String) (db : Db)
    → IsReady id expected oid db
    → activate id expected oid db ≡ (ok tt, activated id expected oid db)
unfolding activate
activate_ready id expected oid db r = ground (
  arith,
  activation_ok id expected oid db (required_from_manifest id db) r.parent r.state r.release
      r.release_named (check-ok id (required_from_manifest id db) db r.bound),
  r.requires,
)

-- An activation succeeds exactly when the candidate is ready.
pub activate-ok_iff :
    (id : String) (expected : Option String) (oid : String) (db : Db)
    → ((activate id expected oid db).0 ≡ ok tt) ↔ IsReady id expected oid db
unfolding activate
activate-ok_iff id expected oid db =
    (needs, λ r. ap (λ (p : Result (Unit {0}) × Db). p.0) (activate_ready id expected oid db r))
  where
    models : List (String × String)
    models = required_from_manifest id db

    ran :
        (activate id expected oid db).0 ≡ ok tt
        → (activation id expected oid (required_from_manifest id db) db).0 ≡ ok tt
    ran h = ground arith

    named : (activate id expected oid db).0 ≡ ok tt → required_from_manifest id db ≢ []
    named h e = ground arith

    needs : (activate id expected oid db).0 ≡ ok tt → IsReady id expected oid db
    needs h =
        let (p, s, r, n, c) =
          activation_needs id expected oid db (required_from_manifest id db) (ran h) in
        record {
          requires = named h;
          parent = p;
          state = s;
          release = r;
          release_named = n;
          bound = check-IsBound id (required_from_manifest id db) db c;
        }

-- An activation that raises leaves the database as it was.
pub activate_rolls_back :
    (id : String) (expected : Option String) (oid : String) (db : Db) (e : Error)
    → (activate id expected oid db).0 ≡ err e
    → (activate id expected oid db).1 ≡ db
unfolding activate
activate_rolls_back id expected oid db e h =
    ground (
      arith,
      transaction_rolls_back (activation id expected oid (required_from_manifest id db)) db e,
    )

check-ne-pointer_moved :
    (id : String) (models : List (String × String)) (db : Db)
    → (check_read_models id models db).0 ≢ err pointer_moved
unfolding check_read_models
check-ne-pointer_moved id [] db h = ground arith
check-ne-pointer_moved id ((name, digest) ∷ rest) db h =
    ground (arith, check-ne-pointer_moved id rest db)

activation-ne-pointer_moved :
    (id : String) (expected : Option String) (oid : String) (db : Db)
    (models : List (String × String))
    → (activation id expected oid models db).0 ≢ err pointer_moved
unfolding activation
activation-ne-pointer_moved id expected oid db models h = ground (
  arith,
  check-state id models db,
  check-ne-pointer_moved id models db,
  supersede-publication db.current_generation_id (publish_row id db),
  publish-publication id db,
)

-- The guard of the second UPDATE never fails: the pointer cannot move within the transaction.
pub activate-ne-pointer_moved :
    (id : String) (expected : Option String) (oid : String) (db : Db)
    → (activate id expected oid db).0 ≢ err pointer_moved
unfolding activate
activate-ne-pointer_moved id expected oid db h =
    ground (arith, activation-ne-pointer_moved id expected oid db (required_from_manifest id db))
