-- ===== src/Generation/Bound.antt =====
-- What a verified generation is bound to: its files are those of its snapshot, and its id pins them.
use wiki_spike.Base.{String, true, ◌≡◌, ap, ◌∙◌, inl, inr, Option, some, List, arith, Option-cases}
use wiki_spike.Base.Optional.{◌>>=◌}
use wiki_spike.Models.{CompiledClaim}
use wiki_spike.Json.{Json, text, lookup, as_text}
use wiki_spike.Assembler.{Encoding, canonical_hash}
use wiki_spike.Assembler.Pages.{render_pages, wiki_files_root}
use wiki_spike.Assembler.Citation.{build_citation_index}
use wiki_spike.Assembler.Snapshot.{parse_snapshot}
use wiki_spike.Generation.{Git, Keyring, citation_path, snapshot_path, manifest_path}
use wiki_spike.Generation.Verify.{
  get, or_object, is_text, same_set, expected_paths, same_pages, check_rendered, check_files,
  pages_of, check_content, check_manifest, verify_manifest,
}

is_text-true : (v : Option Json) (t : String) → is_text v t ≡ true → v ≡ some (text t)
is_text-true v t h = ground arith

module _ {R B : Type 0} (same : Discrete B) (encoding : Encoding B) (git : Git R B)
    (keyring : Keyring) where
  -- What the commit of a generation holds, beside its claims.
  pub record Content (commit g : String) (inline : Json) (r : R) : Type 0 where
    pub pages : List (String × B)
    pub citation : B
    pub snapshot : B
    pub claims : List CompiledClaim
    pub read_pages : pages_of same encoding git keyring commit r ≡ some pages
    pub read_citation : git.cat_file commit citation_path r ≡ some citation
    pub read_snapshot : git.cat_file commit snapshot_path r ≡ some snapshot
    pub read_claims : parse_snapshot encoding snapshot ≡ some claims
    pub wiki_root :
        get "wiki_files_root" inline ≡ some (some (text (wiki_files_root encoding pages)))
    pub citation_digest :
        get "citation_index_digest" inline ≡ some (some (text (encoding.sha256_hex citation)))
    pub snapshot_digest :
        get "knowledge_snapshot_digest" inline ≡ some (some (text (encoding.sha256_hex snapshot)))
    pub rendered : same_pages same encoding git keyring (render_pages encoding claims) pages ≡ true
    pub cited : build_citation_index encoding claims ≡ citation
    pub only_files :
        same_set (git.ls_tree commit r) (expected_paths g (git.ls_tree commit r)) ≡ true

  check_rendered-true :
      (pages : List (String × B)) (citation snapshot : B)
      → check_rendered same encoding git keyring pages citation snapshot ≡ some true
      → (claims : List CompiledClaim) × (parse_snapshot encoding snapshot ≡ some claims)
        × (same_pages same encoding git keyring (render_pages encoding claims) pages ≡ true)
        × (build_citation_index encoding claims ≡ citation)
  unfolding check_rendered
  check_rendered-true pages citation snapshot h =
      elim (Option-cases (parse_snapshot encoding snapshot)) [
        | inl unread ↦ absurd (ground arith)
        | inr (claims, read) ↦ (claims, read, ground arith, ground arith)
      ]

  check_files-true :
      (commit g : String) (inline : Json) (pages : List (String × B)) (r : R)
      → same_set (git.ls_tree commit r) (expected_paths g (git.ls_tree commit r)) ≡ true
      → pages_of same encoding git keyring commit r ≡ some pages
      → check_files same encoding git keyring commit inline pages r ≡ some true
      → Content commit g inline r
  unfolding check_files
  check_files-true commit g inline pages r only read h =
      elim (Option-cases (get "wiki_files_root" inline)) [
        | inl a ↦ absurd (ground arith)
        | inr (wroot, got_w) ↦ elim (Option-cases (git.cat_file commit citation_path r)) [
          | inl a ↦ absurd (ground arith)
          | inr (citation, got_c) ↦ elim (Option-cases (git.cat_file commit snapshot_path r)) [
            | inl a ↦ absurd (ground arith)
            | inr (snapshot, got_s) ↦ elim (Option-cases (get "citation_index_digest" inline)) [
              | inl a ↦ absurd (ground arith)
              | inr (cdigest, got_cd) ↦
                  elim (Option-cases (get "knowledge_snapshot_digest" inline)) [
                    | inl a ↦ absurd (ground arith)
                    | inr (sdigest, got_sd) ↦
                        let (claims, parsed, same_p, same_c) =
                          check_rendered-true pages citation snapshot (ground arith) in
                        record {
                          pages = pages;
                          citation = citation;
                          snapshot = snapshot;
                          claims = claims;
                          read_pages = read;
                          read_citation = got_c;
                          read_snapshot = got_s;
                          read_claims = parsed;
                          wiki_root = got_w ∙ ap some (is_text-true _ _ (ground arith));
                          citation_digest = got_cd ∙ ap some (is_text-true _ _ (ground arith));
                          snapshot_digest = got_sd ∙ ap some (is_text-true _ _ (ground arith));
                          rendered = same_p;
                          cited = same_c;
                          only_files = only;
                        }
                  ]
            ]
          ]
        ]
      ]

  -- A generation whose commit is verified.
  pub record Verified (commit g : String) (r : R) : Type 0 where
    pub descriptor : Json
    pub signer : String
    pub signature : String
    pub inline : Option Json
    pub named : canonical_hash encoding descriptor ≡ g
    pub signed : keyring.verify signer g signature ≡ some true
    pub artifacts : get "inline_artifacts" descriptor ≡ some inline
    pub content : Content commit g (or_object inline) r

  check_content-true :
      (commit g : String) (descriptor : Json) (r : R)
      → check_content same encoding git keyring commit g descriptor r ≡ some true
      → (inline : Option Json) × (get "inline_artifacts" descriptor ≡ some inline)
        × Content commit g (or_object inline) r
  unfolding check_content
  check_content-true commit g descriptor r h =
      elim (Option-cases (get "inline_artifacts" descriptor)) [
        | inl a ↦ absurd (ground arith)
        | inr (inline, got) ↦ elim (Option-cases (pages_of same encoding git keyring commit r)) [
          | inl a ↦ absurd (ground arith)
          | inr (pages, read) ↦ (
            inline,
            got,
            check_files-true commit g (or_object inline) pages r (ground arith) read (ground arith),
          )
        ]
      ]

  check_manifest-true :
      (commit g : String) (manifest : Json) (r : R)
      → check_manifest same encoding git keyring commit g manifest r ≡ some true
      → Verified commit g r
  unfolding check_manifest
  check_manifest-true commit g manifest r h = elim (Option-cases (get "generation_id" manifest)) [
    | inl a ↦ absurd (ground arith)
    | inr (claimed, got_g) ↦ elim (Option-cases (get "descriptor" manifest)) [
      | inl a ↦ absurd (ground arith)
      | inr (found, got_d) ↦ elim (Option-cases (lookup "signer_key_id" manifest >>= as_text)) [
        | inl a ↦ absurd (ground arith)
        | inr (signer, got_k) ↦ elim (Option-cases (lookup "signature" manifest >>= as_text)) [
          | inl a ↦ absurd (ground arith)
          | inr (signature, got_s) ↦ elim (Option-cases (keyring.verify signer g signature)) [
            | inl a ↦ absurd (ground arith)
            | inr (signed, got_v) ↦
                let (inline, artifacts, content) =
                  check_content-true commit g (or_object found) r (ground arith) in
                record {
                  descriptor = or_object found;
                  signer = signer;
                  signature = signature;
                  inline = inline;
                  named = ground arith;
                  signed = ground arith;
                  artifacts = artifacts;
                  content = content;
                }
          ]
        ]
      ]
    ]
  ]

  -- A verified generation is signed under its id, its id is the hash of its descriptor, and its commit
  -- holds what the descriptor names: its pages and its citation index are those of its snapshot, the
  -- snapshot is read, and there are no other files.
  pub verify_manifest-Verified :
      (commit g : String) (r : R)
      → verify_manifest same encoding git keyring commit g r ≡ some true
      → Verified commit g r
  unfolding verify_manifest
  verify_manifest-Verified commit g r h =
      elim (Option-cases (git.cat_file commit (manifest_path g) r)) [
        | inl a ↦ absurd (ground arith)
        | inr (raw, got) ↦ elim (Option-cases (encoding.loads raw)) [
          | inl a ↦ absurd (ground arith)
          | inr (manifest, loaded) ↦ check_manifest-true commit g manifest r (ground arith)
        ]
      ]
