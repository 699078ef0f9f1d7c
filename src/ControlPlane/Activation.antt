-- ===== src/ControlPlane/Activation.antt =====
-- `ControlPlane.activate`: the one transaction that moves the publication pointer.
pub mod Atomic
use wiki_spike.Base.{
  ℕ, ◌+◌, String, Option, none, some, List, [], ◌∷◌, ◌++◌, Bool, true, false, not, ◌||◌,
  String-discrete, Key-discrete, holds, ◌==◌, ◌=s◌, ◌=o◌, if◌then◌else◌,
}
use wiki_spike.Exec.{
  Exec, Error, Result, ok, err, pure, raise, gets, modify, raise_if, transaction, ◌>>=◌, ◌>>◌,
  cas_conflict, pointer_moved, no_required_read_models, state_not_ready, release_mismatch,
  read_model_not_ready, digest_mismatch,
}
use wiki_spike.Table.{find, update}
use wiki_spike.ControlPlane.Schema.{
  Db, Generation, GenerationState, read_models_ready, published, superseded, Publication, ReadModel,
  OutboxEvent, release_mirror_requested, generation_key, read_model_key, is_ready,
}
use wiki_spike.ControlPlane.Generations.{generation_row, generation_state, required_from_manifest}

-- `generation_state(...) != "read_models_ready"`
abbrev not_ready : Option GenerationState → Bool
not_ready none = true
not_ready (some s) = not (is_ready s)

-- The release of the row; the row is there, since its state was read before.
unfoldable pub release_commit : String → Db → Option String
release_commit id db = elim (generation_row id db) [ none ↦ none | some g ↦ g.release_commit_oid ]

-- `not rel or rel != release_commit_oid`: an empty text counts as none
abbrev release_differs : Option String → String → Bool
release_differs none oid = true
release_differs (some rel) oid = rel =s "" || not (rel =s oid)

unfoldable pub read_model_row : String → String → Db → Option ReadModel
read_model_row id name db = find Key-discrete read_model_key (id, name) db.read_models

-- One round of the loop over the required read models.
unfoldable pub check_read_model : String → String → Option ReadModel → Result (Unit {0})
check_read_model name digest none = err (read_model_not_ready name)
check_read_model name digest (some m) =
    if not m.is_ready
    then err (read_model_not_ready name)
    else if m.artifact_digest =o some digest
    then ok tt
    else err (digest_mismatch name)

unfoldable pub check_read_models : String → List (String × String) → Exec Db Unit
unfolding check_read_model read_model_row
check_read_models id [] = pure tt
check_read_models id ((name, digest) ∷ rest) = do
  (λ db. (check_read_model name digest (read_model_row id name db), db))
  check_read_models id rest

-- `... SET state='published' WHERE generation_id=? AND state='read_models_ready'`
abbrev pub to_published : Generation → Generation
to_published g = if is_ready g.state then record g { state = published } else g

abbrev pub to_superseded : Generation → Generation
to_superseded g = record g { state = superseded }

unfoldable pub publish_row : String → Db → Db
publish_row id db = record db {
  generations = update String-discrete generation_key id to_published db.generations;
}

unfoldable pub supersede_row : Option String → Db → Db
supersede_row none db = db
supersede_row (some cur) db = record db {
  generations = update String-discrete generation_key cur to_superseded db.generations;
}

-- The guarded UPDATE of the pointer, and the number of rows that it changed.
unfoldable pub move_pointer : Option String → String → String → Exec Db ℕ
move_pointer expected id oid db =
    if db.current_generation_id =o expected
    then (
      ok 1,
      record db {
        publication = record db.publication {
          current_generation_id = some id;
          current_release_commit_oid = some oid;
        };
      },
    )
    else (ok 0, db)

unfoldable pub enqueue : String → Db → Db
enqueue id db = record db {
  outbox =
      db.outbox
      ++ record {
        event_id = db.last_event_id + 1;
        event_type = release_mirror_requested;
        generation_id = id;
        processed = false;
      }
        ∷ [];
  last_event_id = db.last_event_id + 1;
}

-- The body of the transaction. `SELECT`s see the writes that stand above them.
unfoldable pub activation : String → Option String → String → List (String × String) → Exec Db Unit
unfolding move_pointer
activation id expected oid models = do
  cur ← gets (λ db. db.current_generation_id)
  raise_if (not (cur =o expected)) cas_conflict
  state ← gets (generation_state id)
  raise_if (not_ready state) state_not_ready
  rel ← gets (release_commit id)
  raise_if (release_differs rel oid) release_mismatch
  check_read_models id models
  modify (publish_row id)
  modify (supersede_row cur)
  changed ← move_pointer expected id oid
  raise_if (not (changed == 1)) pointer_moved
  modify (enqueue id)

abbrev is_empty {ℓ} : {A : Type ℓ} → List A → Bool
is_empty [] = true
is_empty (x ∷ xs) = false

unfoldable pub activate : String → Option String → String → Exec Db Unit
unfolding activation
activate id expected oid = do
  models ← gets (required_from_manifest id)
  raise_if (is_empty models) no_required_read_models
  transaction (activation id expected oid models)
