-- ===== src/Generation/Roundtrip.antt =====
-- A repository that holds one commit, and the build and the check of a generation in it.
use wiki_spike.Base.{
  String, true, ◌≡◌, refl, none, some, List, [], ◌∷◌, All, String-discrete, arith, Option-cases,
}
use wiki_spike.Base.Sorting.{sort, sorted}
use wiki_spike.Exec.{ok, err, integrity_error}
use wiki_spike.Table.{find}
use wiki_spike.Models.{CompiledClaim}
use wiki_spike.Json.{Json}
use wiki_spike.Assembler.Snapshot.{IsBound, by_assertion_id, compute_claim_id}
use wiki_spike.Generation.{
  Git, CandidateResult, build_candidate, candidate_descriptor, candidate_of, commit_candidate,
  commit_files, anchor, parent_commit_of,
}
use wiki_spike.Generation.Verify.{verify_manifest}
use wiki_spike.Generation.Listing.{paths}
use wiki_spike.Generation.Stored.{bytes_at}
use wiki_spike.Generation.Built.{IsStore, build_candidate_verifies}
use wiki_spike.Generation.Examples.{Refs, ref_of, claim, framing, signer, Json-discrete}

-- The refs, the tree that was written last, and the files of the commit.
record Repo : Type 0 where
  refs : Refs
  tree : List (String × Json)
  committed : List (String × Json)

abbrev repository : Git Repo Json
repository = record {
  write_tree_from_files = λ files r. (ok "tree", record r { tree = files });
  commit_tree = λ tree message parent r. (ok "commit", record r { committed = r.tree });
  read_ref = λ ref r. ref_of ref r.refs;
  create_ref_only = λ ref commit r. elim (ref_of ref r.refs) [
    | none ↦ (ok tt, record r { refs = (ref, commit) ∷ r.refs })
    | some old ↦ (err integrity_error, r)
  ];
  cat_file = λ commit path r. bytes_at path r.committed;
  ls_tree = λ commit r. sorted (paths r.committed);
}

repository-IsStore : IsStore Json-discrete framing repository signer "k" "phase1"
repository-IsStore = record {
  stored = λ files tree message commit parent r dict wrote made. record {
    listed = refl;
    read = λ path. refl;
  };
  create_holds = λ files commit ref c r h. record {
    listed = ground (arith, Option-cases (ref_of ref r.refs), h.listed);
    read = λ path. ground (arith, Option-cases (ref_of ref r.refs), h.read path);
  };
}

abbrev nothing : Repo
nothing = record { refs = []; tree = []; committed = [] }

abbrev claims : List CompiledClaim
claims = claim ∷ []

claims-IsBound : All (IsBound framing) claims
unfolding compute_claim_id String-discrete
claims-IsBound = (record { own_id = refl; same_claim = refl; has_evidence = refl }, tt)

claims_sorted : sort by_assertion_id claims ≡ claims
unfolding sort
claims_sorted = refl

signer_verifies :
    (message hex : String)
    → signer.sign "k" message ≡ ok hex
    → signer.verify "k" message hex ≡ some true
signer_verifies message hex e = ground arith

abbrev built : CandidateResult
built =
    candidate_of framing repository signer "k" "phase1" claims
      (candidate_descriptor framing repository signer "k" "phase1" claims none "src" "root" none)
      "ff" "commit"

is_built :
    (build_candidate framing repository signer "k" "phase1" claims none "src" "root" none nothing).0
    ≡ ok built
unfolding build_candidate commit_candidate commit_files anchor parent_commit_of find
is_built = refl

build_candidate_verifies_example :
    verify_manifest Json-discrete framing repository signer built.commit_oid built.generation_id
      (build_candidate framing repository signer "k" "phase1" claims none "src" "root" none
        nothing).1
    ≡ some true
build_candidate_verifies_example =
    build_candidate_verifies Json-discrete framing repository signer "k" "phase1" repository-IsStore
      claims none "src" "root" none nothing built claims-IsBound claims_sorted refl refl
      signer_verifies is_built
