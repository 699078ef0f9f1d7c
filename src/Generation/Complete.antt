-- ===== src/Generation/Complete.antt =====
-- A commit that holds the files of a candidate is verified.
use wiki_spike.Base.{
  String, true, ◌≡◌, refl, ◌∙◌, Option, none, some, List, String-discrete, =s-self,
}
use wiki_spike.Json.{Json}
use wiki_spike.Models.{CompiledClaim}
use wiki_spike.Publish.Builder.{Binding}
use wiki_spike.Assembler.{Encoding, canonical_hash}
use wiki_spike.Assembler.Pages.{render_pages, wiki_files_root}
use wiki_spike.Assembler.Citation.{build_citation_index}
use wiki_spike.Assembler.Snapshot.{build_snapshot, parse_snapshot}
use wiki_spike.Generation.{
  Git, Keyring, inline_artifacts, candidate_descriptor, descriptor_of, manifest_of, files_of,
  manifest_path, citation_path, snapshot_path,
}
use wiki_spike.Generation.Verify.{get, check_files, check_content, check_manifest, verify_manifest}
use wiki_spike.Generation.Stored.{
  Holds, by_path, read_pages, only_expected, find_manifest, find_snapshot, find_citation,
}
use wiki_spike.Generation.Readback.{
  render_pages-IsDict, render_pages-IsWiki, wiki_files_root-by_path, check_rendered-built,
}

module _ {R B : Type 0} (same : Discrete B) (encoding : Encoding B) (git : Git R B)
    (keyring : Keyring) (key_id profile : String) where
  -- What a candidate of these claims names.
  abbrev inline_of : List CompiledClaim → Json
  inline_of accepted =
      inline_artifacts encoding git keyring key_id profile
        (wiki_files_root encoding (render_pages encoding accepted))
        (encoding.sha256_hex (build_citation_index encoding accepted))
        (encoding.sha256_hex (build_snapshot encoding accepted))

  names_inline :
      (accepted : List CompiledClaim) (parent : Option String) (source root : String)
      (binding : Option Binding)
      → get "inline_artifacts" (
          candidate_descriptor encoding git keyring key_id profile accepted parent source root
            binding)
        ≡ some (some (inline_of accepted))
  unfolding candidate_descriptor descriptor_of String-discrete
  names_inline accepted parent source root none = refl
  names_inline accepted parent source root (some b) = refl

  module _ (accepted : List CompiledClaim) (parent : Option String) (source root : String)
      (binding : Option Binding) (signature commit : String) (r : R) where
    abbrev pub descriptor : Json
    descriptor =
        candidate_descriptor encoding git keyring key_id profile accepted parent source root binding

    abbrev pub g : String
    g = canonical_hash encoding descriptor

    abbrev pub manifest : Json
    manifest = manifest_of encoding git keyring key_id profile descriptor g signature

    abbrev pub built_files : List (String × B)
    built_files =
        files_of encoding git keyring key_id profile (render_pages encoding accepted)
          (build_citation_index encoding accepted) (build_snapshot encoding accepted) g manifest

    module _ (restored : parse_snapshot encoding (build_snapshot encoding accepted) ≡ some accepted)
        (held : Holds same encoding git keyring key_id profile commit built_files r) where
      read_citation :
          git.cat_file commit citation_path r ≡ some (build_citation_index encoding accepted)
      read_citation =
          held.read citation_path
          ∙ find_citation same encoding git keyring key_id profile _ _ _ g manifest
              (render_pages-IsDict encoding accepted) (render_pages-IsWiki encoding accepted)

      read_snapshot : git.cat_file commit snapshot_path r ≡ some (build_snapshot encoding accepted)
      read_snapshot =
          held.read snapshot_path
          ∙ find_snapshot same encoding git keyring key_id profile _ _ _ g manifest
              (render_pages-IsDict encoding accepted) (render_pages-IsWiki encoding accepted)

      check_files-built :
          check_files same encoding git keyring commit
            (inline_of accepted)
            (by_path (render_pages encoding accepted))
            r
          ≡ some true
      unfolding check_files String-discrete
      check_files-built = rw (wiki_files_root-by_path encoding (render_pages encoding accepted)) (
          rw (=s-self (wiki_files_root encoding (render_pages encoding accepted))) (
            rw read_citation (
              rw read_snapshot (
                rw (=s-self (encoding.sha256_hex (build_citation_index encoding accepted))) (
                  rw (=s-self (encoding.sha256_hex (build_snapshot encoding accepted)))
                    (check_rendered-built same encoding git keyring accepted _ _ restored refl))))))

      check_content-built :
          check_content same encoding git keyring commit g descriptor r ≡ some true
      unfolding check_content
      check_content-built = rw (names_inline accepted parent source root binding) (
          rw
            (only_expected same encoding git keyring key_id profile _ _ _ g manifest
              (render_pages-IsDict encoding accepted) (render_pages-IsWiki encoding accepted) commit
              r held)
            (rw
              (read_pages same encoding git keyring key_id profile _ _ _ g manifest
                (render_pages-IsDict encoding accepted) (render_pages-IsWiki encoding accepted)
                commit r held)
              check_files-built))

      check_manifest-built :
          keyring.verify key_id g signature ≡ some true
          → check_manifest same encoding git keyring commit g manifest r ≡ some true
      unfolding check_manifest manifest_of String-discrete
      check_manifest-built signed = rw (=s-self g) (rw signed check_content-built)

      pub verify_manifest-held :
          keyring.verify key_id g signature ≡ some true
          → encoding.loads (encoding.canonical_bytes manifest) ≡ some manifest
          → verify_manifest same encoding git keyring commit g r ≡ some true
      unfolding verify_manifest
      verify_manifest-held signed reads =
          rw
            (held.read (manifest_path g)
              ∙ find_manifest same encoding git keyring key_id profile _ _ _ g manifest
                  (render_pages-IsDict encoding accepted) (render_pages-IsWiki encoding accepted))
            (rw reads (check_manifest-built signed))
