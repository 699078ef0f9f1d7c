-- ===== src/Generation/Examples.antt =====
-- A repository of one candidate, and the theorems of generation.py at it.
use wiki_spike.Base.{
  String, true, false, ◌≡◌, refl, ap, sym, ◌∙◌, Option, none, some, List, [], ◌∷◌, ◌++◌, map,
  String-discrete, arith, Option-cases, ◌=s◌, ◌||◌, if◌then◌else◌,
}
use wiki_spike.Exec.{ok, err, integrity_error}
use wiki_spike.Table.{find}
use wiki_spike.Models.{CompiledClaim, positive}
use wiki_spike.Json.{Json, text}
use wiki_spike.Assembler.{Encoding, canonical_hash}
use wiki_spike.Assembler.Pages.{render_pages}
use wiki_spike.Assembler.Citation.{build_citation_index}
use wiki_spike.Assembler.Snapshot.{compute_claim_id, build_snapshot}
use wiki_spike.Publish.Builder.{Builder, IsFaithful}
use wiki_spike.Generation.{
  Git, Keyring, CandidateResult, build_candidate, candidate_descriptor, candidate_of,
  commit_candidate, commit_files, files_of, manifest_of, anchor, parent_commit_of,
}
use wiki_spike.Generation.Verify.{verify_manifest}
use wiki_spike.Generation.Framing.{frame_json, frame_json_inj}
use wiki_spike.Generation.Pinned.{IsCollisionFree, Agree, text_at, verify_manifest_pins}
use wiki_spike.Generation.Anchor.{IsGit, IsAnchored, build_candidate_anchors}
use wiki_spike.Generation.Refined.{generation_builder, generation_builder-IsFaithful}

abbrev pub Refs : Type 0
Refs = List (String × String)

abbrev pub ref_of : String → Refs → Option String
ref_of ref refs = elim (find String-discrete (λ (r : String × String). r.0) ref refs) [
  | none ↦ none
  | some r ↦ some r.1
]

-- Each commit holds the same files.
abbrev shelf : {B : Type 0} → List (String × B) → Git Refs B
shelf files = record {
  write_tree_from_files = λ written refs. (ok "tree", refs);
  commit_tree = λ tree message parent refs. (ok "commit", refs);
  read_ref = ref_of;
  create_ref_only = λ ref commit refs. elim (ref_of ref refs) [
    | none ↦ (ok tt, (ref, commit) ∷ refs)
    | some old ↦ (err integrity_error, refs)
  ];
  cat_file = λ commit path refs. elim (find String-discrete (λ (f : String × _). f.0) path files) [
    | none ↦ none
    | some f ↦ some f.1
  ];
  ls_tree = λ commit refs. map (λ (f : String × _). f.0) files;
}

shelf-IsGit : {B : Type 0} (files : List (String × B)) → IsGit (shelf files)
unfolding find
shelf-IsGit files = record {
  write_keeps = λ written r ref. refl;
  commit_keeps = λ tree message parent r ref. refl;
  create_sets = λ ref commit r done. ground (arith, Option-cases (ref_of ref r));
  create_keeps = λ ref commit other c r p. ground (arith, Option-cases (ref_of ref r));
}

abbrev pub signer : Keyring
signer = record {
  sign = λ key message. ok "ff";
  verify = λ key message signature. some (signature =s "ff" || signature =s "ee");
  verify_domain = λ key domain message signature. some false;
}

abbrev pub framing : Encoding Json
framing = record {
  canonical_bytes = λ v. v;
  loads = some;
  encode = text;
  sha256_hex = λ v. frame_json v "";
  lower = λ s. s;
}

some_inj : {A : Type 0} {a b : A} → some a ≡ some b → a ≡ b
some_inj e = cc

framing-IsCollisionFree : IsCollisionFree framing
framing-IsCollisionFree = record {
  sha256_inj = λ x y e. (frame_json_inj x y "" "" e).0;
  canonical_digests = λ v w name x y named e at_v at_w.
      some_inj (sym at_v ∙ ap (text_at "inline_artifacts" name) e ∙ at_w);
}

-- The files of a candidate with one claim.
abbrev pub claim : CompiledClaim
claim = record {
  identity = record {
    claim_id = id;
    subject_id = "Ada";
    predicate_id = "wrote";
    obj = "notes";
    polarity = positive;
    scope = [];
  };
  assertion = record {
    assertion_id = "a1";
    claim_id = id;
    source_id = "src";
    evidence_ids = "e1" ∷ [];
    modality = "asserted";
  };
  evidence = record {
    evidence_id = "e1";
    source_object_hash = "s";
    representation_hash = "r";
    quote_hash = "q";
    locators = [];
  };
}
  where
    id : String
    id = compute_claim_id framing "Ada" "wrote" "notes" positive []

abbrev no_files : Git Refs Json
no_files = shelf []

abbrev descriptor : Json
descriptor =
    candidate_descriptor framing no_files signer "k" "phase1" (claim ∷ []) none "src" "root" none

abbrev g : String
g = canonical_hash framing descriptor

abbrev candidate_files : List (String × Json)
candidate_files =
    files_of framing no_files signer "k" "phase1" (render_pages framing (claim ∷ []))
      (build_citation_index framing (claim ∷ [])) (build_snapshot framing (claim ∷ [])) g
      (manifest_of framing no_files signer "k" "phase1" descriptor g "ff")

pub Json-discrete : Discrete Json
Json-discrete v w = decide (String-discrete (frame_json v "") (frame_json w ""))
  where
    decide : Dec (frame_json v "" ≡ frame_json w "") → Dec (v ≡ w)
    decide (yes p) = yes (frame_json_inj v w "" "" p).0
    decide (no n) = no (λ e. n (ap (λ (u : Json). frame_json u "") e))

abbrev reverse : List (String × Json) → List (String × Json)
reverse [] = []
reverse (f ∷ fs) = reverse fs ++ f ∷ []

-- Of two commits with one id, the second has another signature and lists its files in another order.
abbrev signed_again : List (String × Json)
signed_again = reverse (
    files_of framing no_files signer "k" "phase1" (render_pages framing (claim ∷ []))
      (build_citation_index framing (claim ∷ [])) (build_snapshot framing (claim ∷ [])) g
      (manifest_of framing no_files signer "k" "phase1" descriptor g "ee"))

abbrev two_commits : Git Refs Json
two_commits = record (shelf candidate_files) {
  cat_file = λ commit path refs.
      if commit =s "second"
      then (shelf signed_again).cat_file commit path refs
      else (shelf candidate_files).cat_file commit path refs;
  ls_tree = λ commit refs.
      if commit =s "second"
      then (shelf signed_again).ls_tree commit refs
      else (shelf candidate_files).ls_tree commit refs;
}

first_verifies : verify_manifest Json-discrete framing two_commits signer "first" g [] ≡ some true
unfolding verify_manifest candidate_descriptor files_of Json-discrete compute_claim_id render_pages
    build_citation_index build_snapshot manifest_of find String-discrete frame_json
first_verifies = refl

second_verifies : verify_manifest Json-discrete framing two_commits signer "second" g [] ≡ some true
unfolding verify_manifest candidate_descriptor files_of Json-discrete compute_claim_id render_pages
    build_citation_index build_snapshot manifest_of find String-discrete frame_json
second_verifies = refl

verify_manifest_pins_example : Agree Json-discrete framing two_commits signer "first" "second" []
verify_manifest_pins_example =
    verify_manifest_pins Json-discrete framing two_commits signer "first" "second" g []
      framing-IsCollisionFree first_verifies second_verifies

abbrev one_ref : Refs
one_ref = ("refs/wiki/generations/g0", "c0") ∷ []

first_ref : ref_of "refs/wiki/generations/g0" one_ref ≡ some "c0"
unfolding find String-discrete
first_ref = refl

abbrev built : CandidateResult
built = candidate_of framing no_files signer "k" "phase1" (claim ∷ []) descriptor "ff" "commit"

candidate_is_built :
    (build_candidate framing no_files signer "k" "phase1" (claim ∷ []) none "src" "root" none []).0
    ≡ ok built
unfolding build_candidate commit_candidate commit_files anchor parent_commit_of find
candidate_is_built = refl

build_candidate_anchors_example :
    IsAnchored framing no_files signer "k" "phase1" built
      (build_candidate framing no_files signer "k" "phase1"
        (claim ∷ [])
        none
        "src"
        "root"
        none
        []).1
build_candidate_anchors_example =
    build_candidate_anchors framing no_files signer "k" "phase1" (shelf-IsGit []) (claim ∷ []) none
      "src" "root" none [] built candidate_is_built

-- The bytes of a value are its frame.
abbrev framed : Encoding String
framed = record {
  canonical_bytes = λ v. frame_json v "";
  loads = λ raw. none;
  encode = λ s. s;
  sha256_hex = λ s. s;
  lower = λ s. s;
}

abbrev base : Builder Refs
base = record {
  build_candidate = λ accepted parent source root binding refs. (err integrity_error, refs);
  verify_manifest = λ commit generation refs. false;
  snapshot = λ commit refs. err integrity_error;
  write_tree_from_files = λ files refs. (ok "tree", refs);
  commit_tree = λ tree message parent refs. (ok "release", refs);
  read_ref = ref_of;
  create_ref_only = λ ref commit refs. (ok tt, (ref, commit) ∷ refs);
  accepted_claim_set_root = λ decisions. "root";
  canonical_hash = λ body. "hash";
  manifest_hash = λ candidate. "hash";
  sign_domain = λ domain message. "ff";
  release_bytes = λ body signature. "release";
}

generation_builder-IsFaithful_example :
    IsFaithful (generation_builder String-discrete framed (shelf []) signer "k" "phase1" base)
generation_builder-IsFaithful_example =
    generation_builder-IsFaithful String-discrete framed (shelf []) signer "k" "phase1"
      (shelf-IsGit []) base
