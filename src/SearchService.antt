-- ===== src/SearchService.antt =====
-- search.py: queries over a search index whose pointer may lag the wiki pointer.
pub mod Compatibility
mod Examples
use wiki_spike.Base.{
  String, Bool, true, false, not, Option, none, some, List, [], select, ◌=s◌, if◌then◌else◌,
}
use wiki_spike.Base.Int.{ℤ, pos, ◌-ℤ◌, ltb_ℤ}
use wiki_spike.ControlPlane.Schema.{Db, ResolutionState}
use wiki_spike.ControlPlane.Generations.{generation_seq}
use wiki_spike.ControlPlane.Search.{SearchEntry, is_accepted, resolution_state, search_index_lookup}

-- A `SearchHit` has the fields of an entry of the index.
pub record SearchResponse : Type 0 where
  pub hits : List SearchEntry
  pub indexed_generation_id : Option String
  pub current_wiki_generation_id : Option String
  pub stale : Bool
  pub disabled : Bool

-- `resolution_state(w, claim_id) == "accepted"`
abbrev pub is_accepted? : Option ResolutionState → Bool
is_accepted? none = false
is_accepted? (some s) = is_accepted s

unfoldable pub accepted_in : String → Db → SearchEntry → Bool
accepted_in w db e = is_accepted? (resolution_state w e.claim_id db)

unfoldable pub lag : String → String → Db → ℤ
lag w s db = generation_seq w db -ℤ generation_seq s db

-- The body of `query` where both pointers are set.
unfoldable pub answer :
    (String → String → Bool) → ℤ → String → String → String → Db → SearchResponse
unfolding lag accepted_in
answer like max_generation_lag term s w db =
    if ltb_ℤ max_generation_lag (lag w s db)
    then record {
      hits = [];
      indexed_generation_id = some s;
      current_wiki_generation_id = some w;
      stale = true;
      disabled = true;
    }
    else record {
      hits = select (accepted_in w db) (search_index_lookup like s term db);
      indexed_generation_id = some s;
      current_wiki_generation_id = some w;
      stale = not (s =s w);
      disabled = false;
    }

abbrev no_answer : Option String → Option String → SearchResponse
no_answer s w = record {
  hits = [];
  indexed_generation_id = s;
  current_wiki_generation_id = w;
  stale = false;
  disabled = false;
}

unfoldable pub query : (String → String → Bool) → ℤ → String → Db → SearchResponse
unfolding answer
query like max_generation_lag term db = elim db.current_search_generation_id [
  | none ↦ no_answer none db.current_generation_id
  | some s ↦ elim db.current_generation_id [
    | none ↦ no_answer (some s) none
    | some w ↦ answer like max_generation_lag term s w db
  ]
]
