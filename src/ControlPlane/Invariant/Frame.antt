-- ===== src/ControlPlane/Invariant/Frame.antt =====
-- The methods that touch neither the generations, nor the publication, nor the outbox.
use wiki_spike.Base.{ℕ, String, ◌≡◌, ◌⊎◌, inl, inr, Option-cases, none, some, List, [], ◌∷◌, arith}
use wiki_spike.Models.{CompiledClaim}
use wiki_spike.ControlPlane.Schema.{Db, Generation, ResolutionState}
use wiki_spike.ControlPlane.Lease.{acquire_lease, release_lease}
use wiki_spike.ControlPlane.Generations.{mark_read_model, generation_row}
use wiki_spike.ControlPlane.Claims.{upsert_claim_and_assertion, add_generation_assertions}
use wiki_spike.ControlPlane.Search.{
  SearchEntry, record_resolution, index_write, build_search_index, set_search_pointer,
}

-- What publication rests on.
pub record SameCore (a b : Db) : Type 0 where
  pub generations : a.generations ≡ b.generations
  pub current : a.current_generation_id ≡ b.current_generation_id
  pub release : a.current_release_commit_oid ≡ b.current_release_commit_oid
  pub outbox : a.outbox ≡ b.outbox
  pub last_event_id : a.last_event_id ≡ b.last_event_id

pub SameCore-refl : (db : Db) → SameCore db db
SameCore-refl db = ground arith

pub SameCore-trans : {a b c : Db} → SameCore a b → SameCore b c → SameCore a c
SameCore-trans p q = ground arith

pub acquire-SameCore :
    (holder : String) (now ttl : ℕ) (db : Db) → SameCore (acquire_lease holder now ttl db).1 db
unfolding acquire_lease
acquire-SameCore holder now ttl db = ground arith

pub release-SameCore : (holder : String) (db : Db) → SameCore (release_lease holder db) db
unfolding release_lease
release-SameCore holder db = ground arith

pub mark-SameCore :
    (id name digest : String) (db : Db) → SameCore (mark_read_model id name digest db).1 db
unfolding mark_read_model
mark-SameCore id name digest db = ground arith

pub join-SameCore :
    (id : String) (aids : List String) (db : Db)
    → SameCore (add_generation_assertions id aids db) db
unfolding add_generation_assertions
join-SameCore id [] db = ground arith
join-SameCore id (aid ∷ aids) db = SameCore-trans (join-SameCore id aids _) (ground arith)

pub resolve-SameCore :
    (id claim_id : String) (s : ResolutionState) (db : Db)
    → SameCore (record_resolution id claim_id s db).1 db
unfolding record_resolution
resolve-SameCore id claim_id s db = ground arith

pub index-SameCore :
    (id : String) (es : List SearchEntry) (db : Db) → SameCore (build_search_index id es db).1 db
unfolding build_search_index
index-SameCore id [] db = ground arith
index-SameCore id (e ∷ es) db =
    first (Option-cases (generation_row id db)) (index-SameCore id es (index_write id e db))
  where
    first :
        (generation_row id db ≡ none) ⊎ ((g : Generation) × (generation_row id db ≡ some g))
        → SameCore (build_search_index id es (index_write id e db)).1 (index_write id e db)
        → SameCore (build_search_index id (e ∷ es) db).1 db
    first (inl absent) rest = rw absent (SameCore-refl db)
    first (inr (g, there)) rest = rw there (SameCore-trans rest (ground arith))

pub upsert-SameCore : (c : CompiledClaim) (db : Db) → SameCore (upsert_claim_and_assertion c db) db
unfolding upsert_claim_and_assertion
upsert-SameCore c db = ground arith

pub point-SameCore : (id : String) (db : Db) → SameCore (set_search_pointer id db) db
unfolding set_search_pointer
point-SameCore id db = ground arith
