-- ===== src/SearchService/Examples.antt =====
-- A query over an index that lags, and the theorems at it.
use wiki_spike.Base.{
  String, ◌≡◌, refl, ◌↔◌, inl, Bool, none, some, [], ◌∷◌, In, ◌=s◌, String-discrete, Key-discrete,
}
use wiki_spike.Base.Int.{pos, ◌<ℤ◌}
use wiki_spike.Exec.{ok}
use wiki_spike.Table.{find, insert_or_replace}
use wiki_spike.ControlPlane.Schema.{
  Db, Generation, IndexEntry, published, accepted, retracted, empty_db,
}
use wiki_spike.ControlPlane.Search.{
  SearchEntry, resolution_state, record_resolution, search_index_lookup,
}
use wiki_spike.ControlPlane.Generations.{generation_seq}
use wiki_spike.SearchService.{query, lag}
use wiki_spike.SearchService.Compatibility.{query-hits_iff}

-- LIKE, for the one pattern that is used
like : String → String → Bool
like pattern text = text =s "likes"

abbrev row : String → String → IndexEntry
row id claim = record {
  generation_id = id;
  claim_id = claim;
  subject = "x";
  predicate = "likes";
  object = "y";
}

abbrev entry : String → SearchEntry
entry claim = record { claim_id = claim; subject = "x"; predicate = "likes"; object = "y" }

abbrev generation : String → Generation
generation id = record {
  generation_id = id;
  parent_generation_id = none;
  candidate_commit_oid = "oid";
  manifest_hash = "hash";
  manifest_json = record { wiki_files_root = none; citation_index_digest = none };
  release_commit_oid = none;
  state = published;
  seq = 1;
}

-- The index stands at `g1`, and the wiki has gone on to `g2`, where claim `c2` is retracted.
abbrev lagging : Db
lagging = record empty_db {
  generations = generation "g1" ∷ record (generation "g2") { seq = 2 } ∷ [];
  search_index = row "g1" "c1" ∷ row "g1" "c2" ∷ [];
  resolutions =
      record { generation_id = "g2"; claim_id = "c1"; state = accepted }
      ∷ record { generation_id = "g2"; claim_id = "c2"; state = retracted }
      ∷ [];
  publication = record {
    current_generation_id = some "g2";
    current_release_commit_oid = some "rel2";
    current_search_generation_id = some "g1";
  };
}

only_accepted : (query like (pos 5) "like" lagging).hits ≡ entry "c1" ∷ []
unfolding query search_index_lookup resolution_state like find generation_seq String-discrete
    Key-discrete
only_accepted = refl

query-hits_iff_example : In (entry "c1") (query like (pos 5) "like" lagging).hits ↔ (
    In (entry "c1") (search_index_lookup like "g1" "like" lagging)
    × (resolution_state "g2" "c1" lagging ≡ some accepted)
    × (¬ (pos 5 <ℤ lag "g2" "g1" lagging)))
query-hits_iff_example = query-hits_iff like (pos 5) "like" lagging (entry "c1") "g1" "g2" refl refl

abbrev c3_retracted : Db
c3_retracted = (record_resolution "g2" "c3" retracted lagging).1

recorded : (record_resolution "g2" "c3" retracted lagging).0 ≡ ok tt
unfolding record_resolution find String-discrete
recorded = refl

still_there : In (entry "c1") (query like (pos 5) "like" c3_retracted).hits
unfolding query search_index_lookup resolution_state record_resolution like find insert_or_replace
    generation_seq String-discrete Key-discrete
still_there = inl refl
