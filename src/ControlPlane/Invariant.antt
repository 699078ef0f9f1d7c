-- ===== src/ControlPlane/Invariant.antt =====
-- Every method of `ControlPlane` that writes, and what holds between two calls whatever publishers,
-- searchers and mirrors do.
pub mod Frame
pub mod Induction
pub mod Pointer
pub mod Events
use wiki_spike.Base.{ℕ, String, Option, List, [], ◌∷◌}
use wiki_spike.Models.{CompiledClaim}
use wiki_spike.ControlPlane.Schema.{Db, InlineArtifacts, ResolutionState, empty_db}
use wiki_spike.ControlPlane.Lease.{acquire_lease, release_lease}
use wiki_spike.ControlPlane.Generations.{
  register_generation, set_release_commit, mark_read_model, set_read_models_ready,
}
use wiki_spike.ControlPlane.Claims.{upsert_claim_and_assertion, add_generation_assertions}
use wiki_spike.ControlPlane.Activation.{activate}
use wiki_spike.ControlPlane.Search.{
  SearchEntry, record_resolution, build_search_index, set_search_pointer,
}
use wiki_spike.ControlPlane.Outbox.{mark_outbox_processed}

pub data Call : Type 0 where
  acquiring : String → ℕ → ℕ → Call
  releasing : String → Call
  registering : String → Option String → String → String → InlineArtifacts → Option String → Call
  releasing_commit : String → String → Call
  marking : String → String → String → Call
  readying : String → Call
  upserting : CompiledClaim → Call
  joining : String → List String → Call
  resolving : String → String → ResolutionState → Call
  indexing : String → List SearchEntry → Call
  pointing : String → Call
  activating : String → Option String → String → Call
  relaying : ℕ → Call

-- The database after a call; an exception goes to the caller.
unfoldable pub perform : Call → Db → Db
perform (acquiring holder now ttl) db = (acquire_lease holder now ttl db).1
perform (releasing holder) db = release_lease holder db
perform (registering id parent oid hash manifest release) db =
    register_generation id parent oid hash manifest release db
perform (releasing_commit id oid) db = set_release_commit id oid db
perform (marking id name digest) db = (mark_read_model id name digest db).1
perform (readying id) db = set_read_models_ready id db
perform (upserting c) db = upsert_claim_and_assertion c db
perform (joining id aids) db = add_generation_assertions id aids db
perform (resolving id claim_id state) db = (record_resolution id claim_id state db).1
perform (indexing id entries) db = (build_search_index id entries db).1
perform (pointing id) db = set_search_pointer id db
perform (activating id expected oid) db = (activate id expected oid db).1
perform (relaying event_id) db = mark_outbox_processed event_id db

unfoldable pub perform_all : List Call → Db → Db
perform_all [] db = db
perform_all (c ∷ cs) db = perform_all cs (perform c db)
