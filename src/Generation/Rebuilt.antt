-- ===== src/Generation/Rebuilt.antt =====
-- A repository whose commands only keep refs, and a generation that is built twice in it.
use wiki_spike.Base.{
  String, false, ◌≡◌, refl, Option, none, some, [], ◌∷◌, ◌||◌, not, if◌then◌else◌, =s-self,
  String-discrete, arith,
}
use wiki_spike.Base.Texts.{is_empty}
use wiki_spike.Exec.{ok, err, integrity_error}
use wiki_spike.Table.{find}
use wiki_spike.Json.{Json}
use wiki_spike.Assembler.Snapshot.{compute_claim_id}
use wiki_spike.Generation.{
  CandidateResult, build_candidate, candidate_descriptor, candidate_of, commit_candidate,
  commit_files, anchor, parent_commit_of, retention_ref_of,
}
use wiki_spike.Generation.Repository.{Commands, git_repo, read_ref}
use wiki_spike.Generation.Repository.Refs.{IsDocumented, build_candidate_once}
use wiki_spike.Generation.Framing.{frame_json}
use wiki_spike.Generation.Examples.{Refs, ref_of, claim, framing, signer}

abbrev out_of : Option String → String
out_of none = ""
out_of (some s) = s

abbrev current : String → Refs → String
current ref refs = out_of (ref_of ref refs)

abbrev commands : Commands Refs Json
commands = record {
  hash_object = λ bytes r. (ok "object", r);
  update_index = λ index path oid r. (ok tt, r);
  write_tree = λ index r. (ok "tree", r);
  commit_tree = λ tree message parent r. (ok "commit", r);
  rev_parse = current;
  update_ref = λ ref new old r.
      if is_empty new || not (is_empty (current ref r))
      then (err integrity_error, r)
      else (ok tt, (ref, new) ∷ r);
  cat_file = λ commit path r. none;
  ls_tree = λ commit r. [];
  is_sha256 = λ r. false;
  index_name = λ r. "index.tmp";
  unlink = λ index r. r;
}

commands-IsDocumented : IsDocumented commands
unfolding find
commands-IsDocumented = record {
  hash_keeps = λ bytes r ref. refl;
  index_keeps = λ index path oid r ref. refl;
  tree_keeps = λ index r ref. refl;
  commit_keeps = λ tree message parent r ref. refl;
  unlink_keeps = λ index r ref. refl;
  update_names = λ ref new old r done. ground arith;
  update_sets = λ ref new old r done. ground (arith, =s-self ref);
  update_others = λ ref new old other r apart. ground (arith, apart);
  update_refuses = λ ref new r there done. ground (arith, there);
  refused_keeps = λ ref new old other x r failed. ground arith;
}

abbrev built : CandidateResult
built =
    candidate_of framing (git_repo commands) signer "k" "phase1" (claim ∷ [])
      (candidate_descriptor framing (git_repo commands) signer "k" "phase1" (claim ∷ []) none "src"
        "root" none)
      "ff" "commit"

abbrev anchored : Refs
anchored = (built.retention_ref, "commit") ∷ []

built_again :
    (build_candidate framing
      (git_repo commands)
      signer
      "k"
      "phase1"
      (claim ∷ [])
      none
      "src"
      "root"
      none
      anchored).0
    ≡ ok built
unfolding build_candidate commit_candidate commit_files anchor parent_commit_of git_repo find
    compute_claim_id String-discrete frame_json
built_again = refl

there_before : read_ref commands (retention_ref_of built.generation_id) anchored ≡ some "commit"
unfolding read_ref find compute_claim_id String-discrete frame_json candidate_descriptor
there_before = refl

build_candidate_once_example :
    (built.commit_oid ≡ "commit")
    × (read_ref commands
          (retention_ref_of built.generation_id)
          (build_candidate framing
            (git_repo commands)
            signer
            "k"
            "phase1"
            (claim ∷ [])
            none
            "src"
            "root"
            none
            anchored).1
        ≡ some "commit")
build_candidate_once_example =
    build_candidate_once commands commands-IsDocumented framing signer "k" "phase1" (claim ∷ [])
      none "src" "root" none "commit" anchored built built_again there_before
