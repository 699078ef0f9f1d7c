-- ===== src/Publish/Materialize/Rows.antt =====
-- The rows of a published generation, and what a reader of the search index then sees.
use wiki_spike.Base.{
  String, ◌≡◌, refl, some, List, [], ◌∷◌, map, arith, ◌=s◌, Key-discrete, if◌then◌else◌,
}
use wiki_spike.Exec.{ok}
use wiki_spike.Table.{find-insert_or_replace}
use wiki_spike.Models.{CompiledClaim}
use wiki_spike.ControlPlane.Schema.{
  Db, Generation, ResolutionState, accepted, retracted, resolution_key,
}
use wiki_spike.ControlPlane.Generations.{generation_row}
use wiki_spike.ControlPlane.Search.{
  SearchEntry, record_resolution, resolution_state, build_search_index, index_write,
  set_search_pointer,
}
use wiki_spike.ControlPlane.Claims.{add_generation_assertions}
use wiki_spike.ControlPlane.Invariant.Frame.{
  SameCore, SameCore-refl, SameCore-trans, join-SameCore, resolve-SameCore, point-SameCore,
  index-SameCore,
}
use wiki_spike.Publish.Survivors.{assertion_of, claim_of, contains}
use wiki_spike.Publish.Materialize.{record_all, search_entries, post_publish}

resolution-one :
    (id c d : String) (st : ResolutionState) (db : Db) (g : Generation)
    → generation_row id db ≡ some g
    → ((record_resolution id c st db).0 ≡ ok tt)
      × (resolution_state id d (record_resolution id c st db).1
          ≡ (if c =s d then some st else resolution_state id d db))
unfolding record_resolution resolution_state
resolution-one id c d st db g there = ground (
  arith,
  find-insert_or_replace Key-discrete resolution_key (id, d)
      (record { generation_id = id; claim_id = c; state = st }) db.resolutions,
)

row-SameCore :
    (id : String) (a b : Db) (g : Generation)
    → SameCore a b
    → generation_row id b ≡ some g
    → generation_row id a ≡ some g
row-SameCore id a b g s there = rw s.generations there

pub record IsRecorded (id : String) (st : ResolutionState) (cs : List String) (a b : Db)
    : Type 0 where
  pub core : SameCore a b
  pub states :
      (d : String)
      → resolution_state id d a ≡ (if contains cs d then some st else resolution_state id d b)

record_all-ok :
    (id : String) (st : ResolutionState) (cs : List String) (db : Db) (g : Generation)
    → generation_row id db ≡ some g
    → ((record_all id st cs db).0 ≡ ok tt) × IsRecorded id st cs (record_all id st cs db).1 db
unfolding record_all
record_all-ok id st [] db g there = (refl, record { core = SameCore-refl db; states = λ d. refl })
record_all-ok id st (c ∷ cs) db g there =
    let one = (record_resolution id c st db).1 in
    let (ran, rest) =
      record_all-ok id st cs one g (row-SameCore id one db g (resolve-SameCore id c st db) there) in
    let done = (resolution-one id c c st db g there).0 in
    (
      rw (done) ran,
      rw (done) (record {
        core = SameCore-trans rest.core (resolve-SameCore id c st db);
        states = λ d. ground (arith, rest.states d, (resolution-one id c d st db g there).1);
      }),
    )

build_index-ok :
    (id : String) (es : List SearchEntry) (db : Db) (g : Generation)
    → generation_row id db ≡ some g
    → ((build_search_index id es db).0 ≡ ok tt)
      × ((d : String)
          → resolution_state id d (build_search_index id es db).1 ≡ resolution_state id d db)
unfolding build_search_index resolution_state
build_index-ok id [] db g there = (refl, λ d. refl)
build_index-ok id (e ∷ es) db g there =
    let (ran, same) = build_index-ok id es (index_write id e db) g there in
    (rw there ran, λ d. rw there (same d))

join-resolutions :
    (id d : String) (g : String) (aids : List String) (db : Db)
    → resolution_state id d (add_generation_assertions g aids db) ≡ resolution_state id d db
unfolding add_generation_assertions resolution_state
join-resolutions id d g [] db = refl
join-resolutions id d g (aid ∷ aids) db = join-resolutions id d g aids _

point-resolutions :
    (id d g : String) (db : Db)
    → resolution_state id d (set_search_pointer g db) ≡ resolution_state id d db
unfolding set_search_pointer resolution_state
point-resolutions id d g db = refl

-- The state of the database after the writes of `_post_publish`.
pub record IsMaterialized (id : String) (surviving : List CompiledClaim) (revokes : List String)
    (a b : Db) : Type 0 where
  pub core : SameCore a b
  pub search_pointer : a.current_search_generation_id ≡ some id
  pub states :
      (d : String)
      → resolution_state id d a ≡ (
          if contains revokes d
          then some retracted
          else if contains (map claim_of surviving) d
          then some accepted
          else resolution_state id d b)

-- For a generation that is registered, `_post_publish` does not fail. It points the search at the
-- generation, accepts in it the surviving claims that are not revoked, retracts the revoked ones, and
-- leaves the generations, the publication pointer and the outbox alone.
pub post_publish-IsMaterialized :
    (id : String) (surviving : List CompiledClaim) (revokes : List String) (db : Db)
    (g : Generation)
    → generation_row id db ≡ some g
    → ((post_publish id surviving revokes db).0 ≡ ok tt)
      × IsMaterialized id surviving revokes (post_publish id surviving revokes db).1 db
unfolding post_publish
post_publish-IsMaterialized id surviving revokes db g there =
    let joined = add_generation_assertions id (map assertion_of surviving) db in
    let core1 = join-SameCore id (map assertion_of surviving) db in
    let there1 = row-SameCore id joined db g core1 there in
    let (ok2, rec2) = record_all-ok id accepted (map claim_of surviving) joined g there1 in
    let db2 = (record_all id accepted (map claim_of surviving) joined).1 in
    let there2 = row-SameCore id db2 joined g rec2.core there1 in
    let (ok3, rec3) = record_all-ok id retracted revokes db2 g there2 in
    let db3 = (record_all id retracted revokes db2).1 in
    let there3 = row-SameCore id db3 db2 g rec3.core there2 in
    let (ok4, same4) = build_index-ok id (search_entries [] surviving) db3 g there3 in
    let db4 = (build_search_index id (search_entries [] surviving) db3).1 in
    (
      rw (ok2, ok3, ok4),
      rw (ok2, ok3, ok4)
          (record {
            core = SameCore-trans (point-SameCore id db4) (
                SameCore-trans (index-SameCore id (search_entries [] surviving) db3)
                  (SameCore-trans rec3.core (SameCore-trans rec2.core core1)));
            search_pointer = unfold set_search_pointer in refl;
            states = λ d. ground (
              arith,
              point-resolutions id d id db4,
              same4 d,
              rec3.states d,
              rec2.states d,
              join-resolutions id d id (map assertion_of surviving) db,
            );
          }),
    )
