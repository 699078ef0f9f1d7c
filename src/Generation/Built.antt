-- ===== src/Generation/Built.antt =====
-- A generation that was built is verified: `build_candidate` and then `verify_manifest`.
use mathlib.Core.Path.{subst}
use wiki_spike.Base.{
  String, true, ◌≡◌, refl, ap, sym, ◌∙◌, inl, inr, Option, none, some, List, All, arith,
  Option-cases,
}
use wiki_spike.Base.Sorting.{sort}
use wiki_spike.Base.Texts.{append}
use wiki_spike.Exec.{Exec, Result, ok, Result-cases, ◌>>=◌, ◌>>◌, pure}
use wiki_spike.Json.{Json}
use wiki_spike.Models.{CompiledClaim}
use wiki_spike.Publish.Builder.{Binding}
use wiki_spike.Assembler.{Encoding, canonical_hash}
use wiki_spike.Assembler.Pages.{render_pages}
use wiki_spike.Assembler.Citation.{build_citation_index}
use wiki_spike.Assembler.Snapshot.{
  build_snapshot, parse_snapshot, snapshot_value, by_assertion_id, IsBound,
}
use wiki_spike.Assembler.Restored.{parse_snapshot-build_snapshot}
use wiki_spike.Generation.{
  Git, Keyring, CandidateResult, candidate_descriptor, commit_candidate, build_candidate, of_result,
  parent_commit_of, commit_files, anchor, files_of, retention_ref_of,
}
use wiki_spike.Generation.Verify.{verify_manifest}
use wiki_spike.Generation.Anchor.{err_ok, bind-ok, bind-err}
use wiki_spike.Generation.Listing.{IsDict, put-IsDict}
use wiki_spike.Generation.Stored.{Holds}
use wiki_spike.Generation.Readback.{render_pages-IsDict}
use wiki_spike.Generation.Complete.{verify_manifest-held}

ok_inj : {A : Type 0} {a b : A} → ok a ≡ ok b → a ≡ b
ok_inj e = cc

module _ {R : Type 0} where
  -- What succeeds in two steps succeeds in the first.
  bind-made :
      {A C : Type 0} (m : Exec R A) (f : A → Exec R C) (r : R) (c : C)
      → ((m >>= f) r).0 ≡ ok c
      → (a : A) × ((m r).0 ≡ ok a) × ((m >>= f) r ≡ f a (m r).1) × ((f a (m r).1).0 ≡ ok c)
  bind-made m f r c e = elim (Result-cases (m r).0) [
    | inl (a, done) ↦
        let step = bind-ok m f r a done in
        (a, done, step, sym (ap (λ (t : Result _ × R). t.0) step) ∙ e)
    | inr (x, failed) ↦
        absurd (err_ok (sym (ap (λ (t : Result _ × R). t.0) (bind-err m f r x failed)) ∙ e))
  ]

module _ {R B : Type 0} (same : Discrete B) (encoding : Encoding B) (git : Git R B)
    (keyring : Keyring) (key_id profile : String) where
  -- What Git promises of objects: the commit of a tree that was written holds its files, and to create a
  -- ref loses nothing.
  pub record IsStore : Type 0 where
    pub stored :
        (files : List (String × B)) (tree message commit : String) (parent : Option String) (r : R)
        → IsDict files
        → (git.write_tree_from_files files r).0 ≡ ok tree
        → (git.commit_tree tree message parent (git.write_tree_from_files files r).1).0 ≡ ok commit
        → Holds same encoding git keyring key_id profile commit files
            (git.commit_tree tree message parent (git.write_tree_from_files files r).1).1
    pub create_holds :
        (files : List (String × B)) (commit ref c : String) (r : R)
        → Holds same encoding git keyring key_id profile commit files r
        → Holds same encoding git keyring key_id profile commit files
            (git.create_ref_only ref c r).1

  abbrev descriptor_from :
      List CompiledClaim → Option String → String → String → Option Binding → Json
  descriptor_from = candidate_descriptor encoding git keyring key_id profile

  parent_reads :
      (parent : Option String) (r : R)
      → (parent_commit_of encoding git keyring key_id profile parent r).1 ≡ r
  unfolding parent_commit_of
  parent_reads none r = refl
  parent_reads (some g) r = ground (arith, Option-cases (git.read_ref (retention_ref_of g) r))

  module _ (lawful : IsStore) where
    anchor_holds :
        (files : List (String × B)) (commit ref c : String) (r : R)
        → Holds same encoding git keyring key_id profile commit files r
        → Holds same encoding git keyring key_id profile commit files
            (anchor encoding git keyring key_id profile ref c r).1
    unfolding anchor
    anchor_holds files commit ref c r h =
        ground (arith, Option-cases (git.read_ref ref r), lawful.create_holds files commit ref c r)

    commit_files_holds :
        (files : List (String × B)) (parent : Option String) (g : String)
        (candidate : String → CandidateResult) (r : R) (c : CandidateResult)
        → IsDict files
        → (commit_files encoding git keyring key_id profile files parent g candidate r).0 ≡ ok c
        → (commit : String) × (c ≡ candidate commit)
          × Holds same encoding git keyring key_id profile commit files
              (commit_files encoding git keyring key_id profile files parent g candidate r).1
    unfolding commit_files
    commit_files_holds files parent g candidate r c dict e =
        let anchored = anchor encoding git keyring key_id profile (retention_ref_of g) in
        let parent_commit = parent_commit_of encoding git keyring key_id profile parent in
        let last = λ (commit : String). anchored commit >> pure (candidate commit) in
        let third = λ (tree : String) (p : Option String).
          git.commit_tree tree (append "gen " g) p >>= last in
        let (tree, wrote, s1, e1) =
          bind-made (git.write_tree_from_files files) (λ tree. parent_commit >>= third tree) r c
            e in
        let r1 = (git.write_tree_from_files files r).1 in
        let (p, found, s2, e2) = bind-made parent_commit (third tree) r1 c e1 in
        let r2 = (parent_commit r1).1 in
        let (commit, made, s3, e3) =
          bind-made (git.commit_tree tree (append "gen " g) p) last r2 c e2 in
        let r3 = (git.commit_tree tree (append "gen " g) p r2).1 in
        let (done, set, s4, e4) =
          bind-made (anchored commit) (λ done. pure (candidate commit)) r3 c e3 in
        let held : Holds same encoding git keyring key_id profile commit files r3 =
          subst
            (λ (x : R).
              (git.commit_tree tree (append "gen " g) p x).0 ≡ ok commit
              → Holds same encoding git keyring key_id profile commit files
                  (git.commit_tree tree (append "gen " g) p x).1)
            (sym (parent_reads parent r1))
            (lawful.stored files tree (append "gen " g) commit p r dict wrote) made in
        (
          commit,
          sym (ok_inj e4),
          subst
              (λ (t : Result CandidateResult × R).
                Holds same encoding git keyring key_id profile commit files t.1)
              (sym (s1 ∙ s2 ∙ s3 ∙ s4))
              (anchor_holds files commit (retention_ref_of g) commit r3 held),
        )

    files-IsDict :
        (accepted : List CompiledClaim) (g : String) (manifest : Json)
        → IsDict (
            files_of encoding git keyring key_id profile
              (render_pages encoding accepted)
              (build_citation_index encoding accepted)
              (build_snapshot encoding accepted)
              g
              manifest)
    unfolding files_of
    files-IsDict accepted g manifest =
        put-IsDict _ _
          (put-IsDict _ _ (put-IsDict _ _ (put-IsDict _ _ (render_pages-IsDict encoding accepted))))

    commit_candidate_verifies :
        (accepted : List CompiledClaim) (parent : Option String) (source root : String)
        (binding : Option Binding) (signature : String) (r : R) (c : CandidateResult)
        → parse_snapshot encoding (build_snapshot encoding accepted) ≡ some accepted
        → encoding.loads (encoding.canonical_bytes c.manifest) ≡ some c.manifest
        → keyring.verify key_id
            (canonical_hash encoding (descriptor_from accepted parent source root binding))
            signature
          ≡ some true
        → (commit_candidate encoding git keyring key_id profile accepted parent
            (descriptor_from accepted parent source root binding)
            signature
            r).0
          ≡ ok c
        → verify_manifest same encoding git keyring c.commit_oid c.generation_id
            (commit_candidate encoding git keyring key_id profile accepted parent
              (descriptor_from accepted parent source root binding)
              signature
              r).1
          ≡ some true
    unfolding commit_candidate
    commit_candidate_verifies accepted parent source root binding signature r c restored reads
          verified e =
        let (commit, same_c, held) =
          commit_files_holds _ parent _ _ r c (files-IsDict accepted _ _) e in
        let after =
          (commit_candidate encoding git keyring key_id profile accepted parent
            (descriptor_from accepted parent source root binding) signature r).1 in
        subst
          (λ (d : CandidateResult).
            verify_manifest same encoding git keyring d.commit_oid d.generation_id after
            ≡ some true)
          (sym same_c)
          (verify_manifest-held same encoding git keyring key_id profile accepted parent source root
            binding signature commit after restored held verified
            (subst
              (λ (d : CandidateResult).
                encoding.loads (encoding.canonical_bytes d.manifest) ≡ some d.manifest)
              same_c reads))

    -- A generation that is built is verified: where the claims are in the order of their assertions, are
    -- bound to their identities and evidence, the canonical bytes of the snapshot and of the manifest are
    -- read back as they were written, the key verifies what it signs and Git keeps what is committed,
    -- `verify_manifest` accepts every candidate that `build_candidate` returns, in the state that it
    -- leaves.
    pub build_candidate_verifies :
        (accepted : List CompiledClaim) (parent : Option String) (source root : String)
        (binding : Option Binding) (r : R) (c : CandidateResult)
        → All (IsBound encoding) accepted
        → sort by_assertion_id accepted ≡ accepted
        → encoding.loads (encoding.canonical_bytes (snapshot_value encoding accepted))
          ≡ some (snapshot_value encoding accepted)
        → encoding.loads (encoding.canonical_bytes c.manifest) ≡ some c.manifest
        → ((message hex : String)
            → keyring.sign key_id message ≡ ok hex
            → keyring.verify key_id message hex ≡ some true)
        → (build_candidate encoding git keyring key_id profile accepted parent source root binding
            r).0
          ≡ ok c
        → verify_manifest same encoding git keyring c.commit_oid c.generation_id
            (build_candidate encoding git keyring key_id profile accepted parent source root binding
              r).1
          ≡ some true
    unfolding build_candidate
    build_candidate_verifies accepted parent source root binding r c bound order reads_snapshot
          reads_manifest verifies e =
        let value = descriptor_from accepted parent source root binding in
        let (signature, signed, step, made) =
          bind-made
            (of_result encoding git keyring key_id profile
              (keyring.sign key_id (canonical_hash encoding value)))
            (commit_candidate encoding git keyring key_id profile accepted parent value) r c e in
        let restored =
          parse_snapshot-build_snapshot encoding accepted bound reads_snapshot ∙ ap some order in
        subst
          (λ (t : Result CandidateResult × R).
            verify_manifest same encoding git keyring c.commit_oid c.generation_id t.1 ≡ some true)
          (sym step)
          (commit_candidate_verifies accepted parent source root binding signature r c restored
            reads_manifest (verifies _ signature signed) made)
