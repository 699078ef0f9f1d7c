-- ===== src/Generation/Refined.antt =====
-- generation.py behind the interface of publish.py: its candidates are faithful.
use mathlib.Core.Path.{subst}
use wiki_spike.Base.{String, false, ◌≡◌, refl, ap, sym, Option, none, some, List, String-discrete}
use wiki_spike.Base.Optional.{◌>>=◌}
use wiki_spike.Exec.{Result, ok, err, artifact_not_verified}
use wiki_spike.Models.{CompiledClaim}
use wiki_spike.ControlPlane.Schema.{InlineArtifacts}
use wiki_spike.Json.{Json, lookup, as_text}
use wiki_spike.Assembler.{Encoding, canonical_hash}
use wiki_spike.Assembler.Snapshot.{parse_snapshot}
use wiki_spike.Publish.Builder.{Binding, Builder, Candidate, IsFaithful}
use wiki_spike.Generation.{
  Git, Keyring, CandidateResult, build_candidate, candidate_of, commit_candidate,
  candidate_descriptor, descriptor_of, manifest_of, of_result, snapshot_path,
}
use wiki_spike.Generation.Verify.{verify_manifest}
use wiki_spike.Generation.Anchor.{IsGit, Ensures-bind, commit_files_anchors}

-- What the control plane reads of a manifest: `descriptor.inline_artifacts`
unfoldable pub artifacts_of : Json → InlineArtifacts
artifacts_of manifest =
    let inline = lookup "descriptor" manifest >>= lookup "inline_artifacts" in
    record {
      wiki_files_root = inline >>= lookup "wiki_files_root" >>= as_text;
      citation_index_digest = inline >>= lookup "citation_index_digest" >>= as_text;
    }

unfoldable pub candidate : Option Binding → CandidateResult → Candidate
unfolding artifacts_of
candidate binding c = record {
  generation_id = c.generation_id;
  commit_oid = c.commit_oid;
  manifest = artifacts_of c.manifest;
  wiki_files_root = c.wiki_files_root;
  citation_index_digest = c.citation_index_digest;
  accepted_changeset = binding;
}

abbrev result_map : {A C : Type 0} → (A → C) → Result A → Result C
result_map f (ok a) = ok (f a)
result_map f (err e) = err e

module _ {R : Type 0} (same : Discrete String) (encoding : Encoding String) (git : Git R String)
    (keyring : Keyring) (key_id profile : String) where
  abbrev IsNamed : CandidateResult → Type 0
  IsNamed c = artifacts_of c.manifest ≡ record {
    wiki_files_root = some c.wiki_files_root;
    citation_index_digest = some c.citation_index_digest;
  }

  candidate_of-IsNamed :
      (accepted : List CompiledClaim) (parent : Option String) (source root : String)
      (binding : Option Binding) (signature commit : String)
      → IsNamed (
          candidate_of encoding git keyring key_id profile accepted
            (candidate_descriptor encoding git keyring key_id profile accepted parent source root
              binding)
            signature
            commit)
  unfolding artifacts_of candidate_descriptor descriptor_of manifest_of String-discrete
  candidate_of-IsNamed accepted parent source root none signature commit = refl
  candidate_of-IsNamed accepted parent source root (some b) signature commit = refl

  -- `GenerationBuilder` in its place in the operations that publish.py uses; an exception of
  -- `verify_manifest` refuses the generation as `False` does
  unfoldable pub generation_builder : Builder R → Builder R
  unfolding candidate build_candidate verify_manifest parse_snapshot
  generation_builder base = record base {
    build_candidate = λ accepted parent source root binding r.
        let (c, r') =
          build_candidate encoding git keyring key_id profile accepted parent source root binding
            r in
        (result_map (candidate binding) c, r');
    verify_manifest = λ commit g r. elim (verify_manifest same encoding git keyring commit g r) [
      | none ↦ false
      | some b ↦ b
    ];
    snapshot = λ commit r. elim (git.cat_file commit snapshot_path r >>= parse_snapshot encoding) [
      | none ↦ err artifact_not_verified
      | some claims ↦ ok claims
    ];
  }

  module _ (lawful : IsGit git) where
    build_candidate-IsNamed :
        (accepted : List CompiledClaim) (parent : Option String) (source root : String)
        (binding : Option Binding) (r : R) (c : CandidateResult)
        → (build_candidate encoding git keyring key_id profile accepted parent source root binding
            r).0
          ≡ ok c
        → IsNamed c
    unfolding build_candidate commit_candidate
    build_candidate-IsNamed accepted parent source root binding =
        let descriptor =
          candidate_descriptor encoding git keyring key_id profile accepted parent source root
            binding in
        Ensures-bind
          (of_result encoding git keyring key_id profile
            (keyring.sign key_id (canonical_hash encoding descriptor)))
          (commit_candidate encoding git keyring key_id profile accepted parent descriptor)
          (λ c r. IsNamed c)
          (λ signature r c e.
            let (commit, same, points) =
              commit_files_anchors encoding git keyring key_id profile lawful _ parent _ _ r c e in
            subst IsNamed (sym same)
              (candidate_of-IsNamed accepted parent source root binding signature commit))

    ok_map :
        (binding : Option Binding) (made : Result CandidateResult) (c : Candidate)
        → result_map (candidate binding) made ≡ ok c
        → (d : CandidateResult) × (made ≡ ok d) × (c ≡ candidate binding d)
    ok_map binding (ok d) c e = (d, refl, cc)
    ok_map binding (err x) c e = cc

    faithful :
        (base : Builder R) (accepted : List CompiledClaim) (parent : Option String)
        (source root : String) (binding : Option Binding) (r : R) (c : Candidate)
        → ((generation_builder base).build_candidate accepted parent source root binding r).0 ≡ ok c
        → (c.manifest.wiki_files_root ≡ some c.wiki_files_root)
          × (c.manifest.citation_index_digest ≡ some c.citation_index_digest)
    unfolding generation_builder candidate
    faithful base accepted parent source root binding r c e =
        let (d, made, is) = ok_map binding _ c e in
        let named = build_candidate-IsNamed accepted parent source root binding r d made in
        subst
          (λ (x : Candidate).
            (x.manifest.wiki_files_root ≡ some x.wiki_files_root)
            × (x.manifest.citation_index_digest ≡ some x.citation_index_digest))
          (sym is)
          (
            ap (λ (a : InlineArtifacts). a.wiki_files_root) named,
            ap (λ (a : InlineArtifacts). a.citation_index_digest) named,
          )

    -- The builder of generation.py keeps the contract that publication relies on: the manifest of every
    -- candidate that it returns names the candidate's own wiki root and citation digest.
    pub generation_builder-IsFaithful : (base : Builder R) → IsFaithful (generation_builder base)
    generation_builder-IsFaithful base = record {
      manifest_wiki = λ accepted parent source root binding r c e.
          (faithful base accepted parent source root binding r c e).0;
      manifest_citation = λ accepted parent source root binding r c e.
          (faithful base accepted parent source root binding r c e).1;
    }
