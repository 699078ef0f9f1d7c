-- ===== src/ControlPlane/Search.antt =====
-- Claim resolutions and the search index of controlplane.py, with a pointer of its own. SQLite's
-- LIKE is not part of the repository: it is the parameter `like`, pattern first.
use Prim.Native.String.{◌++◌ as append_text}
use wiki_spike.Base.{
  String, Bool, ◌&&◌, ◌||◌, Option, none, some, List, [], ◌∷◌, map, select, Key-discrete, ◌=s◌,
}
use wiki_spike.Exec.{Exec, pure, ◌>>◌}
use wiki_spike.Table.{find, insert_or_replace}
use wiki_spike.ControlPlane.Schema.{
  Db, Resolution, ResolutionState, accepted, retracted, IndexEntry, resolution_key, index_key,
}
use wiki_spike.ControlPlane.Generations.{referring}

unfoldable pub record_resolution : String → String → ResolutionState → Exec Db Unit
unfolding referring
record_resolution id claim_id state = referring id λ db. record db {
  resolutions =
      insert_or_replace Key-discrete resolution_key
        (record { generation_id = id; claim_id = claim_id; state = state }) db.resolutions;
}

unfoldable pub resolution_state : String → String → Db → Option ResolutionState
resolution_state id claim_id db =
    elim (find Key-discrete resolution_key (id, claim_id) db.resolutions) [
      | none ↦ none
      | some r ↦ some r.state
    ]

abbrev pub is_accepted : ResolutionState → Bool
is_accepted accepted = Bool.true
is_accepted retracted = Bool.false

unfoldable pub accepted_claims : String → Db → List String
accepted_claims id db =
    map (λ (r : Resolution). r.claim_id)
      (select (λ (r : Resolution). r.generation_id =s id && is_accepted r.state) db.resolutions)

-- (claim_id, subject, predicate, object)
pub record SearchEntry : Type 0 where
  pub claim_id : String
  pub subject : String
  pub predicate : String
  pub object : String

abbrev pub index_row : String → SearchEntry → IndexEntry
index_row id e = record {
  generation_id = id;
  claim_id = e.claim_id;
  subject = e.subject;
  predicate = e.predicate;
  object = e.object;
}

abbrev pub index_write : String → SearchEntry → Db → Db
index_write id e db = record db {
  search_index = insert_or_replace Key-discrete index_key (index_row id e) db.search_index;
}

unfoldable pub build_search_index : String → List SearchEntry → Exec Db Unit
unfolding referring
build_search_index id [] = pure tt
build_search_index id (e ∷ es) = do referring id (index_write id e); build_search_index id es

abbrev entry_of : IndexEntry → SearchEntry
entry_of r = record {
  claim_id = r.claim_id;
  subject = r.subject;
  predicate = r.predicate;
  object = r.object;
}

-- f"%{term}%"
abbrev pub like_pattern : String → String
like_pattern term = append_text "%" (append_text term "%")

unfoldable pub search_index_lookup :
    (String → String → Bool) → String → String → Db → List SearchEntry
search_index_lookup like id term db =
    let pattern = like_pattern term in
    map entry_of (
      select
        (λ (r : IndexEntry).
          r.generation_id =s id
          && (like pattern r.subject || like pattern r.predicate || like pattern r.object))
        db.search_index)

unfoldable pub set_search_pointer : String → Db → Db
set_search_pointer id db = record db {
  publication = record db.publication { current_search_generation_id = some id };
}
