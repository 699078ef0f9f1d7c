-- ===== src/ControlPlane/Invariant/Pointer.antt =====
-- The publication pointer names the one published generation.
use mathlib.Core.Option
use wiki_spike.Base.{
  ℕ, String, ◌≡◌, refl, sym, ◌↔◌, inl, inr, Option, none, some, List, arith, holds, String-discrete,
  if◌then◌else◌, ◌∙◌,
}
use wiki_spike.Exec.{Result-cases}
use wiki_spike.Table.{find}
use wiki_spike.ControlPlane.Schema.{
  Db, Generation, GenerationState, read_models_ready, published, superseded, InlineArtifacts,
  empty_db, is_ready,
}
use wiki_spike.ControlPlane.Generations.{
  generation_state, register_generation, set_release_commit, set_read_models_ready,
}
use wiki_spike.ControlPlane.Generations.Rows.{
  state-update, state-register, state-set_release, state-set_ready,
}
use wiki_spike.ControlPlane.Activation.{
  to_published, to_superseded, publish_row, supersede_row, enqueue, activate,
}
use wiki_spike.ControlPlane.Activation.Atomic.{
  activated, activate_ready, activate-ok_iff, activate_rolls_back,
}
use wiki_spike.ControlPlane.Outbox.{mark_outbox_processed}
use wiki_spike.ControlPlane.Invariant.{Call, perform_all}
use wiki_spike.ControlPlane.Invariant.Frame.{SameCore}
use wiki_spike.ControlPlane.Invariant.Induction.{IsKept, perform_all_keeps}

-- The pointer is at `g` exactly when `g` is published.
pub record IsConsistent (db : Db) : Type 0 where
  pub current_published :
      (g : String) → db.current_generation_id ≡ some g → generation_state g db ≡ some published
  pub published_current :
      (g : String) → generation_state g db ≡ some published → db.current_generation_id ≡ some g

IsConsistent-empty : IsConsistent empty_db
unfolding find
IsConsistent-empty = record { current_published = λ g e. cc; published_current = λ g e. cc }

IsConsistent-SameCore : {a b : Db} → SameCore a b → IsConsistent b → IsConsistent a
IsConsistent-SameCore {a} {b} s c = record {
  current_published = λ g e. ground (arith, c.current_published g);
  published_current = λ g e. ground (arith, c.published_current g);
}

abbrev publish_state : GenerationState → GenerationState
publish_state s = if is_ready s then published else s

to_published-state : (g : Generation) → (to_published g).state ≡ publish_state g.state
to_published-state g = ground arith

to_published-key : (g : Generation) → (to_published g).generation_id ≡ g.generation_id
to_published-key g = ground arith

state-publish :
    (j id : String) (db : Db)
    → generation_state j (publish_row id db) ≡ (
        if holds (String-discrete id j)
        then Option.map publish_state (generation_state j db)
        else generation_state j db)
unfolding publish_row
state-publish j id db =
    state-update j id to_published publish_state db.generations to_published-key to_published-state

state-supersede :
    (j cur : String) (db : Db)
    → generation_state j (supersede_row (some cur) db) ≡ (
        if holds (String-discrete cur j)
        then Option.map (λ s. superseded) (generation_state j db)
        else generation_state j db)
unfolding supersede_row
state-supersede j cur db =
    state-update j cur to_superseded (λ s. superseded) db.generations (λ g. refl) (λ g. refl)

activated-state :
    (j id : String) (expected : Option String) (oid : String) (db : Db)
    → generation_state j (activated id expected oid db)
      ≡ generation_state j (supersede_row expected (publish_row id db))
unfolding activated enqueue
activated-state j id expected oid db = refl

activated-current :
    (id : String) (expected : Option String) (oid : String) (db : Db)
    → (activated id expected oid db).current_generation_id ≡ some id
unfolding activated enqueue
activated-current id expected oid db = refl

module _ (id : String) (db : Db) (c : IsConsistent db)
    (r : generation_state id db ≡ some read_models_ready) where
  -- Of all the rows, an activation leaves only that of `id` published.
  rows_only :
      (j : String) (expected : Option String)
      → db.current_generation_id ≡ expected
      → generation_state j (supersede_row expected (publish_row id db)) ≡ some published
      → id ≡ j
  unfolding supersede_row
  rows_only j none p h = ground (arith, state-publish j id db, c.published_current j)
  rows_only j (some cur) p h = ground (
    arith,
    state-supersede j cur (publish_row id db),
    state-publish j id db,
    c.published_current j,
  )

  rows_published :
      (expected : Option String)
      → db.current_generation_id ≡ expected
      → generation_state id (supersede_row expected (publish_row id db)) ≡ some published
  unfolding supersede_row
  rows_published none p = ground (arith, state-publish id id db)
  rows_published (some cur) p = ground (
    arith,
    state-supersede id cur (publish_row id db),
    state-publish id id db,
    c.current_published cur,
  )

  activated-IsConsistent :
      (expected : Option String) (oid : String)
      → db.current_generation_id ≡ expected
      → IsConsistent (activated id expected oid db)
  activated-IsConsistent expected oid p = record {
    current_published = λ g e. ground (
      arith,
      activated-current id expected oid db,
      activated-state g id expected oid db,
      rows_published expected p,
    );
    published_current = λ g e. ground (
      arith,
      activated-current id expected oid db,
      activated-state g id expected oid db,
      rows_only g expected p,
    );
  }

activate-IsConsistent :
    (id : String) (expected : Option String) (oid : String) (db : Db)
    → IsConsistent db
    → IsConsistent (activate id expected oid db).1
activate-IsConsistent id expected oid db c = elim (Result-cases (activate id expected oid db).0) [
  | inl (a, done) ↦
      let r = (activate-ok_iff id expected oid db).0 done in
      rw (activate_ready id expected oid db r)
        (activated-IsConsistent id db c r.state expected oid r.parent)
  | inr (e, raised) ↦ rw (activate_rolls_back id expected oid db e raised) c
]

-- A write that leaves the pointer alone, and publishes and withdraws nothing.
IsConsistent-same :
    (a b : Db)
    → a.current_generation_id ≡ b.current_generation_id
    → ((g : String)
        → (generation_state g a ≡ some published) ↔ (generation_state g b ≡ some published))
    → IsConsistent b
    → IsConsistent a
IsConsistent-same a b same states c = record {
  current_published = λ g e. (states g).1 (c.current_published g (sym same ∙ e));
  published_current = λ g e. same ∙ c.published_current g ((states g).0 e);
}

register-IsConsistent :
    (id : String) (parent : Option String) (oid hash : String) (m : InlineArtifacts)
    (rel : Option String) (db : Db)
    → IsConsistent db
    → IsConsistent (register_generation id parent oid hash m rel db)
register-IsConsistent id parent oid hash m rel db =
    IsConsistent-same (register_generation id parent oid hash m rel db) db
      (unfold register_generation in refl)
      (λ g. ground (arith, state-register g id parent oid hash m rel db))

set_release-IsConsistent :
    (id oid : String) (db : Db) → IsConsistent db → IsConsistent (set_release_commit id oid db)
set_release-IsConsistent id oid db =
    IsConsistent-same (set_release_commit id oid db) db (unfold set_release_commit in refl)
      (λ g. ground (arith, state-set_release g id oid db))

set_ready-IsConsistent :
    (id : String) (db : Db) → IsConsistent db → IsConsistent (set_read_models_ready id db)
set_ready-IsConsistent id db =
    IsConsistent-same (set_read_models_ready id db) db (unfold set_read_models_ready in refl)
      (λ g. ground (arith, state-set_ready g id db))

relay-IsConsistent :
    (event_id : ℕ) (db : Db) → IsConsistent db → IsConsistent (mark_outbox_processed event_id db)
unfolding mark_outbox_processed
relay-IsConsistent event_id db =
    IsConsistent-same (mark_outbox_processed event_id db) db refl (λ g. (λ h. h, λ h. h))

-- Every call, whether it returns or raises, keeps the pointer and the published row together.
IsConsistent-IsKept : IsKept IsConsistent
IsConsistent-IsKept = record {
  same = λ a b s c. IsConsistent-SameCore s c;
  registered = register-IsConsistent;
  released = set_release-IsConsistent;
  readied = set_ready-IsConsistent;
  activated = activate-IsConsistent;
  relayed = relay-IsConsistent;
}

-- After any calls at all on a new database, a generation is published exactly when the pointer is at
-- it: so at most one is.
pub published_iff_current :
    (calls : List Call) (g : String)
    → (generation_state g (perform_all calls empty_db) ≡ some published)
      ↔ ((perform_all calls empty_db).current_generation_id ≡ some g)
published_iff_current calls g =
    let c = perform_all_keeps IsConsistent-IsKept calls empty_db IsConsistent-empty in
    (c.published_current g, c.current_published g)
