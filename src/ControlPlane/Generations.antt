-- ===== src/ControlPlane/Generations.antt =====
-- The generations and their read models in controlplane.py. A generation is registered in the state
-- `validated`, before anything is published.
pub mod Rows
use wiki_spike.Base.{
  ℕ, ◌+◌, String, Option, none, some, List, [], ◌∷◌, ◌++◌, Bool, true, false, max_of, select,
  String-discrete, Key-discrete, ◌||◌, if◌then◌else◌,
}
use wiki_spike.Base.Int.{ℤ, pos, negsuc}
use wiki_spike.Exec.{Exec, ok, err, integrity_error, modify}
use wiki_spike.Table.{find, update, insert_or_ignore, insert_or_replace}
use wiki_spike.ControlPlane.Schema.{
  Db, Generation, GenerationState, validated, read_models_ready, InlineArtifacts, ReadModel,
  generation_key, read_model_key, is_validated, is_ready,
}

-- `SELECT ... FROM generation WHERE generation_id = ?`
abbrev pub generation_row : String → Db → Option Generation
generation_row id db = find String-discrete generation_key id db.generations

-- `SELECT COALESCE(MAX(seq), 0) + 1 FROM generation`
unfoldable pub next_seq : List Generation → ℕ
next_seq gs = max_of (λ (g : Generation). g.seq) gs + 1

unfoldable pub register_generation :
    String → Option String → String → String → InlineArtifacts → Option String → Db → Db
unfolding next_seq
register_generation id parent commit_oid manifest_hash manifest_json release_commit_oid db =
    record db {
      generations =
          insert_or_ignore String-discrete generation_key
            (record {
              generation_id = id;
              parent_generation_id = parent;
              candidate_commit_oid = commit_oid;
              manifest_hash = manifest_hash;
              manifest_json = manifest_json;
              release_commit_oid = release_commit_oid;
              state = validated;
              seq = next_seq db.generations;
            })
            db.generations;
    }

unfoldable pub set_release_commit : String → String → Db → Db
set_release_commit id oid db = record db {
  generations =
      update String-discrete generation_key id (λ g. record g { release_commit_oid = some oid })
        db.generations;
}

-- The read models that the inline artifacts of a manifest name, with the digests that they need.
unfoldable pub required : InlineArtifacts → List (String × String)
required m = named "wiki_files" m.wiki_files_root ++ named "citation_index" m.citation_index_digest
  where
    named : String → Option String → List (String × String)
    named name none = []
    named name (some digest) = (name, digest) ∷ []

unfoldable pub required_from_manifest : String → Db → List (String × String)
unfolding required
required_from_manifest id db = elim (generation_row id db) [
  | none ↦ []
  | some g ↦ required g.manifest_json
]

-- -1 for a generation that is not there
unfoldable pub generation_seq : String → Db → ℤ
generation_seq id db = elim (generation_row id db) [ none ↦ negsuc 0 | some g ↦ pos g.seq ]

abbrev pub state_of : Option Generation → Option GenerationState
state_of none = none
state_of (some g) = some g.state

abbrev pub generation_state : String → Db → Option GenerationState
generation_state id db = state_of (generation_row id db)

unfoldable pub generation_commit : String → Db → Option String
generation_commit id db = elim (generation_row id db) [
  | none ↦ none
  | some g ↦ some g.candidate_commit_oid
]

abbrev pub exists {ℓ} : {A : Type ℓ} → Option A → Bool
exists none = false
exists (some a) = true

-- A row that refers to a generation: `FOREIGN KEY (generation_id) REFERENCES generation`, which
-- `PRAGMA foreign_keys=ON` enforces.
unfoldable pub referring : String → (Db → Db) → Exec Db Unit
referring id write db =
    if exists (generation_row id db) then (ok tt, write db) else (err integrity_error, db)

unfoldable pub mark_read_model : String → String → String → Exec Db Unit
unfolding referring
mark_read_model id name digest = referring id λ db. record db {
  read_models =
      insert_or_replace Key-discrete read_model_key
        (record {
          generation_id = id;
          model_name = name;
          is_ready = true;
          artifact_digest = some digest;
        })
        db.read_models;
}

-- `UPDATE generation SET state='read_models_ready' WHERE generation_id=? AND state='validated'`
abbrev pub to_ready : Generation → Generation
to_ready g = if is_validated g.state then record g { state = read_models_ready } else g

unfoldable pub set_read_models_ready : String → Db → Db
set_read_models_ready id db = record db {
  generations = update String-discrete generation_key id to_ready db.generations;
}

abbrev is_orphan : GenerationState → Bool
is_orphan validated = true
is_orphan read_models_ready = true
is_orphan _ = false

unfoldable pub orphan_generations : Db → List Generation
orphan_generations db = select (λ (g : Generation). is_orphan g.state) db.generations
