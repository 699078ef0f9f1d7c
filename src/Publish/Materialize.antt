-- ===== src/Publish/Materialize.antt =====
-- `_post_publish` of publish.py: the rows that a published generation needs, written after the
-- activation and again by a repair.
pub mod Rows
use wiki_spike.Base.{String, Bool, not, List, [], ◌∷◌, map, ◌=s◌, select, if◌then◌else◌}
use wiki_spike.Exec.{Exec, pure, modify, ◌>>=◌, ◌>>◌}
use wiki_spike.Models.{CompiledClaim}
use wiki_spike.ControlPlane.Schema.{Db, ResolutionState, accepted, retracted}
use wiki_spike.ControlPlane.Claims.{add_generation_assertions}
use wiki_spike.ControlPlane.Search.{
  SearchEntry, record_resolution, build_search_index, set_search_pointer,
}
use wiki_spike.Publish.Survivors.{assertion_of, claim_of, contains}

-- `for ... in ...: self.cp.record_resolution(generation_id, claim_id, state)`
unfoldable pub record_all : String → ResolutionState → List String → Exec Db Unit
record_all id state [] = pure tt
record_all id state (c ∷ cs) = do record_resolution id c state; record_all id state cs

abbrev pub search_entry : CompiledClaim → SearchEntry
search_entry c = record {
  claim_id = c.identity.claim_id;
  subject = c.identity.subject_id;
  predicate = c.identity.predicate_id;
  object = c.identity.obj;
}

-- The first item of each claim; `seen` is the set of the claims that stand above.
unfoldable pub search_entries : List String → List CompiledClaim → List SearchEntry
search_entries seen [] = []
search_entries seen (c ∷ cs) =
    let known = search_entries seen cs in
    let fresh = search_entry c ∷ search_entries (claim_of c ∷ seen) cs in
    if contains seen (claim_of c) then known else fresh

-- The revoked claims are a set in the source, in no fixed order.
unfoldable pub post_publish : String → List CompiledClaim → List String → Exec Db Unit
unfolding record_all search_entries
post_publish id surviving revokes = do
  modify (add_generation_assertions id (map assertion_of surviving))
  record_all id accepted (map claim_of surviving)
  record_all id retracted revokes
  build_search_index id (search_entries [] surviving)
  modify (set_search_pointer id)
