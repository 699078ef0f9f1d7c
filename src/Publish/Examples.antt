-- ===== src/Publish/Examples.antt =====
-- Publications by a small builder, and the theorems of publish.py at them.
use Prim.Native.Nat.{max}
use Prim.Native.String.{◌++◌ as append_text}
use wiki_spike.Base.{
  ℕ, ◌≤◌, String, Bool, true, false, ◌≡◌, ◌≢◌, refl, ◌↔◌, none, some, List, [], ◌∷◌, In, inl, arith,
  text_ne, String-discrete, Key-discrete,
}
use wiki_spike.Base.Int.{pos}
use wiki_spike.Exec.{Result, ok, err, pure, artifact_not_verified}
use wiki_spike.Table.{find, update, insert_or_ignore, insert_or_replace}
use wiki_spike.Models.{CompiledClaim, positive}
use wiki_spike.ControlPlane.Schema.{Db, Generation, published, empty_db}
use wiki_spike.Publish.Builder.{Builder, Candidate, Site, IsFaithful}
use wiki_spike.Publish.Survivors.{survivors, decisions, same_assertions, contains}
use wiki_spike.Publish.Survivors.Accumulate.{newest, survivors_iff}
use wiki_spike.Publish.Prepare.{Prepared, Request, exactly, prepare}
use wiki_spike.Publish.Release.{build_release_commit}
use wiki_spike.Publish.Materialize.{post_publish}
use wiki_spike.Publish.Service.{
  published_result, publish, is_active, activate_candidate, activate_prepared,
}
use wiki_spike.Publish.Service.Success.{IsComplete}
use wiki_spike.Publish.Service.Retry.{publish-attempts}
use wiki_spike.Publish.Service.Uncontended.{IsPublished, publish_uncontended, publish_revokes}
use wiki_spike.ControlPlane.Activation.{
  activate, release_commit, check_read_models, supersede_row, publish_row, enqueue,
}
use wiki_spike.ControlPlane.Search.{
  SearchEntry, record_resolution, build_search_index, set_search_pointer, search_index_lookup,
  resolution_state,
}
use wiki_spike.SearchService.{query}
use wiki_spike.ControlPlane.Generations.{
  set_read_models_ready, required_from_manifest, generation_seq, generation_row, mark_read_model,
  register_generation,
}
use wiki_spike.ControlPlane.Claims.{
  add_generation_assertions, upsert_all, upsert_claim_and_assertion,
}
use wiki_spike.Base.Sorting.{sorted}

-- A repository is the snapshots of its commits.
abbrev Snapshots : Type 0
Snapshots = List (String × List CompiledClaim)

abbrev snapshot_row : String → Snapshots → Result (List CompiledClaim)
snapshot_row commit r =
    elim (find String-discrete (λ (s : String × List CompiledClaim). s.0) commit r) [
      | none ↦ err artifact_not_verified
      | some s ↦ ok s.1
    ]

abbrev candidate : String → Candidate
candidate source = record {
  generation_id = append_text "gen_" source;
  commit_oid = append_text "commit_" source;
  manifest = record { wiki_files_root = some "w"; citation_index_digest = some "c" };
  wiki_files_root = "w";
  citation_index_digest = "c";
  accepted_changeset = none;
}

abbrev small : Builder Snapshots
small = record {
  build_candidate = λ claims parent source root binding r.
      (ok (candidate source), (append_text "commit_" source, claims) ∷ r);
  verify_manifest = λ commit id r. true;
  snapshot = snapshot_row;
  write_tree_from_files = λ files. pure "tree";
  commit_tree = λ tree message parent. pure (append_text "release_of_" parent);
  read_ref = λ ref r. none;
  create_ref_only = λ ref oid. pure tt;
  accepted_claim_set_root = λ ds. "root";
  canonical_hash = λ body. "hash";
  manifest_hash = λ c. "manifest";
  sign_domain = λ domain hash. "signature";
  release_bytes = λ body signature. "bytes";
}

built-candidate :
    (source : String) (r : Snapshots) (c : Candidate)
    → ok (candidate source) ≡ ok c
    → candidate source ≡ c
built-candidate source r c h = ground arith

small-IsFaithful : IsFaithful small
small-IsFaithful = record {
  manifest_wiki =
      λ claims parent source root binding r c h. rw (← built-candidate source r c h) refl;
  manifest_citation =
      λ claims parent source root binding r c h. rw (← built-candidate source r c h) refl;
}

abbrev claim : String → String → CompiledClaim
claim assertion_id claim_id = record {
  identity = record {
    claim_id = claim_id;
    subject_id = "subject";
    predicate_id = "predicate";
    obj = "object";
    polarity = positive;
    scope = [];
  };
  assertion = record {
    assertion_id = assertion_id;
    claim_id = claim_id;
    source_id = "source";
    evidence_ids = [];
    modality = "asserted";
  };
  evidence = record {
    evidence_id = "evidence";
    source_object_hash = "source";
    representation_hash = "text";
    quote_hash = "quote";
    locators = [];
  };
}

abbrev first : Request
first = record {
  new_claims = claim "a1" "c1" ∷ claim "a2" "c2" ∷ [];
  source_snapshot_hash = "s1";
  revokes = "c2" ∷ [];
  expected = exactly none;
  changeset_binding = none;
}

abbrev nobody : ℕ → Db → Db
nobody n db = db

abbrev new_site : Site Snapshots
new_site = record { db = empty_db; repo = [] }

abbrev first_prepared : Prepared
first_prepared = record {
  parent_generation_id = none;
  candidate = some (candidate "s1");
  release_commit_oid = some "release_of_commit_s1";
  surviving = claim "a1" "c1" ∷ [];
  revoked_claim_ids = "c2" ∷ [];
  attempts = 1;
  noop = false;
}

first_done : (prepare small first 1 new_site).0 ≡ ok first_prepared
unfolding prepare find insert_or_ignore insert_or_replace update survivors decisions same_assertions
    build_release_commit mark_read_model register_generation upsert_all upsert_claim_and_assertion
    sorted String-discrete Key-discrete
first_done = refl

abbrev first_candidate : Candidate
first_candidate = candidate "s1"

abbrev first_oid : String
first_oid = "release_of_commit_s1"

oid_named : first_oid ≢ ""
unfolding String-discrete
oid_named = text_ne "release_of_commit_s1" "" refl

first_IsComplete : IsComplete first_prepared first_candidate first_oid
first_IsComplete = record { changed = refl; candidate = refl; release = refl }

first_free : generation_row "gen_s1" empty_db ≡ none
unfolding find
first_free = refl

survivors_iff_example : In (claim "a1" "c1") (survivors [] first.new_claims first.revokes) ↔ (
    (newest "a1" first.new_claims none ≡ some (claim "a1" "c1"))
    × (contains first.revokes "c1" ≡ false))
survivors_iff_example = survivors_iff (claim "a1" "c1") [] first.new_claims first.revokes

abbrev first_db : Db
first_db = (prepare small first 1 new_site).1.db

abbrev published_db : Db
published_db = (publish small nobody first 5 new_site).1.db

publish_uncontended_example :
    ((publish small nobody first 5 new_site).0 ≡ ok (published_result first_candidate first_oid 1))
    × IsPublished first_prepared first_candidate first_oid published_db
publish_uncontended_example =
    publish_uncontended small nobody small-IsFaithful (λ n db. refl) first 5 new_site first_prepared
      first_candidate first_oid first_done first_IsComplete first_free oid_named

still_active : is_active "gen_s1" published_db ≡ true
unfolding publish activate activate_candidate post_publish prepare find insert_or_ignore
    insert_or_replace update survivors decisions same_assertions build_release_commit
    mark_read_model register_generation upsert_all upsert_claim_and_assertion sorted String-discrete
    Key-discrete activate_prepared set_read_models_ready required_from_manifest release_commit
    check_read_models supersede_row publish_row record_resolution add_generation_assertions enqueue
    build_search_index set_search_pointer
still_active = refl

first_published :
    (publish small nobody first 5 new_site).0 ≡ ok (published_result first_candidate first_oid 1)
first_published = publish_uncontended_example.0

publish-attempts_example : (1 ≤ 1) × (1 ≤ max 1 5)
publish-attempts_example =
    publish-attempts small nobody first 5 new_site (published_result first_candidate first_oid 1)
      first_published

abbrev nothing_new : Request
nothing_new = record first { new_claims = []; revokes = [] }

abbrev nothing_prepared : Prepared
nothing_prepared = record {
  parent_generation_id = none;
  candidate = none;
  release_commit_oid = none;
  surviving = [];
  revoked_claim_ids = [];
  attempts = 1;
  noop = true;
}

nothing_done : (prepare small nothing_new 1 new_site).0 ≡ ok nothing_prepared
unfolding prepare survivors decisions same_assertions upsert_all sorted
nothing_done = refl

abbrev first_entry : SearchEntry
first_entry = record {
  claim_id = "c1";
  subject = "subject";
  predicate = "predicate";
  object = "object";
}

abbrev match_all : String → String → Bool
match_all pattern text = true

first_hit : In first_entry (query match_all (pos 5) "x" published_db).hits
unfolding publish activate activate_candidate post_publish prepare find insert_or_ignore
    insert_or_replace update survivors decisions same_assertions build_release_commit
    mark_read_model register_generation upsert_all upsert_claim_and_assertion sorted String-discrete
    Key-discrete activate_prepared set_read_models_ready required_from_manifest release_commit
    check_read_models supersede_row publish_row record_resolution add_generation_assertions enqueue
    build_search_index set_search_pointer query search_index_lookup resolution_state generation_seq
first_hit = inl refl

publish_revokes_example : contains first.revokes "c1" ≡ false
publish_revokes_example =
    publish_revokes small nobody small-IsFaithful (λ n db. refl) first 5 new_site first_prepared
      first_candidate first_oid first_done first_IsComplete first_free oid_named match_all (pos 5)
      "x" first_entry first_hit

abbrev first_row : Generation
first_row = record {
  generation_id = "gen_s1";
  parent_generation_id = none;
  candidate_commit_oid = "commit_s1";
  manifest_hash = "manifest";
  manifest_json = record { wiki_files_root = some "w"; citation_index_digest = some "c" };
  release_commit_oid = some first_oid;
  state = published;
  seq = 1;
}

first_row_there : generation_row "gen_s1" published_db ≡ some first_row
unfolding publish activate activate_candidate post_publish prepare find insert_or_ignore
    insert_or_replace update survivors decisions same_assertions build_release_commit
    mark_read_model register_generation upsert_all upsert_claim_and_assertion sorted String-discrete
    Key-discrete activate_prepared set_read_models_ready required_from_manifest release_commit
    check_read_models supersede_row publish_row record_resolution add_generation_assertions enqueue
    build_search_index set_search_pointer
first_row_there = refl
