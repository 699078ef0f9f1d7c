-- ===== src/Assembler/Examples.antt =====
-- Claims and a snapshot whose bytes are the value itself, and the theorems of assembler.py at them.
use mathlib.Core.List.{[], ◌∷◌, List}
use wiki_spike.Base.{String, ◌≡◌, refl, some, map, select, ◌=s◌, String-discrete, All}
use wiki_spike.Base.Sorting.{sort}
use wiki_spike.Models.{CompiledClaim, positive}
use wiki_spike.Json.{Json}
use wiki_spike.Assembler.{Encoding}
use wiki_spike.Assembler.Markup.{sanitize}
use wiki_spike.Assembler.Citation.{
  citation, citation_index, citations_of, by_assertion, citations_of-citation_index,
}
use wiki_spike.Assembler.Pages.{claim_id}
use wiki_spike.Assembler.Snapshot.{
  compute_claim_id, build_snapshot, parse_snapshot, by_assertion_id, IsBound,
}
use wiki_spike.Assembler.Restored.{parse_snapshot-build_snapshot, parse_snapshot-IsBound}

abbrev plain : Encoding Json
plain = record {
  canonical_bytes = λ v. v;
  loads = some;
  encode = Json.text;
  sha256_hex = λ v. "hash";
  lower = λ s. s;
}

abbrev claim : String → CompiledClaim
claim assertion_id = record {
  identity = record {
    claim_id = "hash";
    subject_id = "<Ada>";
    predicate_id = "wrote";
    obj = "[notes]";
    polarity = positive;
    scope = ("lang", "en") ∷ [];
  };
  assertion = record {
    assertion_id = assertion_id;
    claim_id = "hash";
    source_id = "src";
    evidence_ids = "e1" ∷ "e2" ∷ [];
    modality = "asserted";
  };
  evidence = record {
    evidence_id = "e2";
    source_object_hash = "s";
    representation_hash = "r";
    quote_hash = "q";
    locators = (("line", "3") ∷ []) ∷ [];
  };
}

abbrev two : List CompiledClaim
two = claim "b" ∷ claim "a" ∷ []

claim-IsBound : (a : String) → IsBound plain (claim a)
unfolding String-discrete compute_claim_id
claim-IsBound a = record { own_id = refl; same_claim = refl; has_evidence = refl }

sanitize_run : sanitize "<b>&*" ≡ "&lt;b&gt;&amp;\\*"
unfolding sanitize
sanitize_run = refl

citations_of-citation_index_example :
    citations_of "hash" (citation_index two)
    ≡ sort by_assertion (map citation (select (λ c. claim_id c =s "hash") two))
citations_of-citation_index_example = citations_of-citation_index "hash" two

parse_snapshot-build_snapshot_example :
    parse_snapshot plain (build_snapshot plain two) ≡ some (sort by_assertion_id two)
parse_snapshot-build_snapshot_example =
    parse_snapshot-build_snapshot plain two (claim-IsBound "b", (claim-IsBound "a", tt)) refl

parse_snapshot-IsBound_example : All (IsBound plain) (sort by_assertion_id two)
parse_snapshot-IsBound_example =
    parse_snapshot-IsBound plain (build_snapshot plain two) (sort by_assertion_id two)
      parse_snapshot-build_snapshot_example
