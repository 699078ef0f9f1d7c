-- ===== src/ControlPlane/Generations/Rows.antt =====
-- What the writes of the generation table do to the state of every generation.
use mathlib.Core.Option
use wiki_spike.Base.{
  String, ◌≡◌, refl, Option, none, some, List, arith, String-discrete, holds, if◌then◌else◌,
}
use wiki_spike.Table.{find, update, find-update, find-insert_or_ignore, or_else}
use wiki_spike.ControlPlane.Schema.{
  Db, Generation, GenerationState, validated, read_models_ready, InlineArtifacts, generation_key,
  is_validated,
}
use wiki_spike.ControlPlane.Generations.{
  state_of, generation_state, register_generation, set_release_commit, set_read_models_ready,
  to_ready,
}

-- An UPDATE that changes the states by `s`.
pub state-update :
    (j id : String) (f : Generation → Generation) (s : GenerationState → GenerationState)
    (gs : List Generation)
    → ((g : Generation) → generation_key (f g) ≡ generation_key g)
    → ((g : Generation) → (f g).state ≡ s g.state)
    → state_of
        (find String-discrete generation_key j (update String-discrete generation_key id f gs))
      ≡ (if holds (String-discrete id j)
          then Option.map s (state_of (find String-discrete generation_key j gs))
          else state_of (find String-discrete generation_key j gs))
state-update j id f s gs keep acts =
    rw (find-update String-discrete generation_key j id f gs keep)
      (pushed (find String-discrete generation_key j gs))
  where
    pushed :
        (o : Option Generation)
        → state_of (if holds (String-discrete id j) then Option.map f o else o)
          ≡ (if holds (String-discrete id j) then Option.map s (state_of o) else state_of o)
    pushed none = ground arith
    pushed (some g) = ground (arith, acts g)

-- A new generation is `validated`; one that is there keeps its state.
pub state-register :
    (j id : String) (parent : Option String) (oid hash : String) (m : InlineArtifacts)
    (rel : Option String) (db : Db)
    → generation_state j (register_generation id parent oid hash m rel db) ≡ (
        if holds (String-discrete id j)
        then some (or_else validated (generation_state j db))
        else generation_state j db)
unfolding register_generation
state-register j id parent oid hash m rel db = simp find-insert_or_ignore (ground arith)

pub state-set_release :
    (j id oid : String) (db : Db)
    → generation_state j (set_release_commit id oid db) ≡ generation_state j db
unfolding set_release_commit
state-set_release j id oid db = ground (
  arith,
  state-update j id (λ g. record g { release_commit_oid = some oid }) (λ s. s) db.generations
      (λ g. refl) (λ g. refl),
)

abbrev pub ready_state : GenerationState → GenerationState
ready_state s = if is_validated s then read_models_ready else s

to_ready-state : (g : Generation) → (to_ready g).state ≡ ready_state g.state
to_ready-state g = ground arith

to_ready-key : (g : Generation) → generation_key (to_ready g) ≡ generation_key g
to_ready-key g = ground arith

pub state-set_ready :
    (j id : String) (db : Db)
    → generation_state j (set_read_models_ready id db) ≡ (
        if holds (String-discrete id j)
        then Option.map ready_state (generation_state j db)
        else generation_state j db)
unfolding set_read_models_ready
state-set_ready j id db =
    state-update j id to_ready ready_state db.generations to_ready-key to_ready-state
