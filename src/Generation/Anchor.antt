-- ===== src/Generation/Anchor.antt =====
-- The retention anchor of a generation: it is set, and no anchor ever moves.
use mathlib.Core.Path.{subst}
use wiki_spike.Base.{
  String, ◌≡◌, refl, ap, sym, ◌∙◌, inl, inr, Option, none, some, List, arith, Option-cases,
}
use wiki_spike.Base.Texts.{append}
use wiki_spike.Exec.{Error, Exec, Result, ok, err, Result-cases, ◌>>=◌, ◌>>◌, pure}
use wiki_spike.Models.{CompiledClaim}
use wiki_spike.Json.{Json}
use wiki_spike.Assembler.{Encoding, canonical_hash}
use wiki_spike.Publish.Builder.{Binding}
use wiki_spike.Generation.{
  Git, Keyring, CandidateResult, build_candidate, anchor, candidate_descriptor, commit_candidate,
  of_result, parent_commit_of, commit_files, retention_ref_of,
}

-- What Git promises of refs: objects are added beside them, `update-ref` with the zero id creates a ref
-- and refuses one that exists.
pub record IsGit {R B : Type 0} (git : Git R B) : Type 0 where
  pub write_keeps :
      (files : List (String × B)) (r : R) (ref : String)
      → git.read_ref ref (git.write_tree_from_files files r).1 ≡ git.read_ref ref r
  pub commit_keeps :
      (tree message : String) (parent : Option String) (r : R) (ref : String)
      → git.read_ref ref (git.commit_tree tree message parent r).1 ≡ git.read_ref ref r
  pub create_sets :
      (ref commit : String) (r : R)
      → (git.create_ref_only ref commit r).0 ≡ ok tt
      → git.read_ref ref (git.create_ref_only ref commit r).1 ≡ some commit
  pub create_keeps :
      (ref commit other c : String) (r : R)
      → git.read_ref other r ≡ some c
      → git.read_ref other (git.create_ref_only ref commit r).1 ≡ some c

pub err_ok : {A : Type 0} {x : Error} {a : A} → err x ≡ ok a → ⊥
err_ok e = cc

module _ {R : Type 0} where
  pub bind-ok :
      {A C : Type 0} (m : Exec R A) (f : A → Exec R C) (r : R) (a : A)
      → (m r).0 ≡ ok a
      → (m >>= f) r ≡ f a (m r).1
  bind-ok m f r a e = rw e refl

  pub bind-err :
      {A C : Type 0} (m : Exec R A) (f : A → Exec R C) (r : R) (x : Error)
      → (m r).0 ≡ err x
      → (m >>= f) r ≡ (err x, (m r).1)
  bind-err m f r x e = rw e refl

  abbrev pub Ensures : {A : Type 0} → Exec R A → (A → R → Type 0) → Type 0
  Ensures {A} m P = (r : R) (a : A) → (m r).0 ≡ ok a → P a (m r).1

  pub Ensures-bind :
      {A C : Type 0} (m : Exec R A) (f : A → Exec R C) (P : C → R → Type 0)
      → ((a : A) → Ensures (f a) P)
      → Ensures (m >>= f) P
  Ensures-bind m f P h r c e = elim (Result-cases (m r).0) [
    | inl (a, done) ↦
        let step = bind-ok m f r a done in
        subst (λ (t : Result _ × R). P c t.1) (sym step)
          (h a (m r).1 c (sym (ap (λ (t : Result _ × R). t.0) step) ∙ e))
    | inr (x, failed) ↦
        absurd (err_ok (sym (ap (λ (t : Result _ × R). t.0) (bind-err m f r x failed)) ∙ e))
  ]

  abbrev pub Keeps : {A : Type 0} → (R → Type 0) → Exec R A → Type 0
  Keeps P m = (r : R) → P r → P (m r).1

  pub Keeps-bind :
      {A C : Type 0} (P : R → Type 0) (m : Exec R A) (f : A → Exec R C)
      → Keeps P m
      → ((a : A) → Keeps P (f a))
      → Keeps P (m >>= f)
  Keeps-bind P m f hm hf r p = elim (Result-cases (m r).0) [
    | inl (a, done) ↦
        subst (λ (t : Result _ × R). P t.1) (sym (bind-ok m f r a done)) (hf a (m r).1 (hm r p))
    | inr (x, failed) ↦ subst (λ (t : Result _ × R). P t.1) (sym (bind-err m f r x failed)) (hm r p)
  ]

module _ {R B : Type 0} (encoding : Encoding B) (git : Git R B) (keyring : Keyring)
    (key_id profile : String) where
  abbrev pub Points : String → String → R → Type 0
  Points ref commit r = git.read_ref ref r ≡ some commit

  abbrev pub IsAnchored : CandidateResult → R → Type 0
  IsAnchored c r =
      (git.read_ref c.retention_ref r ≡ some c.commit_oid)
      × (c.retention_ref ≡ retention_ref_of c.generation_id)
      × (c.generation_id ≡ canonical_hash encoding c.descriptor)

  module _ (lawful : IsGit git) where
    anchor-Keeps :
        (ref commit other c : String)
        → Keeps (Points other c) (anchor encoding git keyring key_id profile ref commit)
    unfolding anchor
    anchor-Keeps ref commit other c r p =
        ground (arith, Option-cases (git.read_ref ref r), lawful.create_keeps ref commit other c r)

    anchor-Ensures :
        (ref commit : String)
        → Ensures
            (anchor encoding git keyring key_id profile ref commit)
            (λ done r. Points ref commit r)
    unfolding anchor
    anchor-Ensures ref commit r tt e =
        ground (arith, Option-cases (git.read_ref ref r), lawful.create_sets ref commit r)

    parent-Keeps :
        (parent : Option String) (ref c : String)
        → Keeps (Points ref c) (parent_commit_of encoding git keyring key_id profile parent)
    unfolding parent_commit_of
    parent-Keeps none ref c r p = p
    parent-Keeps (some g) ref c r p =
        ground (arith, Option-cases (git.read_ref (retention_ref_of g) r))

    commit_files-Keeps :
        (files : List (String × B)) (parent : Option String) (g : String)
        (candidate : String → CandidateResult) (ref c : String)
        → Keeps
            (Points ref c)
            (commit_files encoding git keyring key_id profile files parent g candidate)
    unfolding commit_files
    commit_files-Keeps files parent g candidate ref c =
        let anchored = anchor encoding git keyring key_id profile (retention_ref_of g) in
        let parent_commit = parent_commit_of encoding git keyring key_id profile parent in
        let last = λ (commit : String). anchored commit >> pure (candidate commit) in
        let third = λ (tree : String) (p : Option String).
          git.commit_tree tree (append "gen " g) p >>= last in
        Keeps-bind (Points ref c) (git.write_tree_from_files files)
          (λ tree. parent_commit >>= third tree) (λ r p. lawful.write_keeps files r ref ∙ p)
          (λ tree.
            Keeps-bind (Points ref c) parent_commit (third tree) (parent-Keeps parent ref c)
              (λ found.
                Keeps-bind (Points ref c) (git.commit_tree tree (append "gen " g) found) last
                  (λ r p. lawful.commit_keeps tree (append "gen " g) found r ref ∙ p)
                  (λ commit.
                    Keeps-bind (Points ref c) (anchored commit) (λ done. pure (candidate commit))
                      (anchor-Keeps (retention_ref_of g) commit ref c) (λ done r p. p))))

    pub commit_files_anchors :
        (files : List (String × B)) (parent : Option String) (g : String)
        (candidate : String → CandidateResult)
        → Ensures
            (commit_files encoding git keyring key_id profile files parent g candidate)
            (λ c r.
              (commit : String) × (c ≡ candidate commit) × Points (retention_ref_of g) commit r)
    unfolding commit_files
    commit_files_anchors files parent g candidate =
        let P = λ (c : CandidateResult) (r : R).
          (commit : String) × (c ≡ candidate commit) × Points (retention_ref_of g) commit r in
        let anchored = anchor encoding git keyring key_id profile (retention_ref_of g) in
        let parent_commit = parent_commit_of encoding git keyring key_id profile parent in
        let last = λ (commit : String). anchored commit >> pure (candidate commit) in
        let third = λ (tree : String) (p : Option String).
          git.commit_tree tree (append "gen " g) p >>= last in
        Ensures-bind (git.write_tree_from_files files) (λ tree. parent_commit >>= third tree) P
          (λ tree. Ensures-bind parent_commit (third tree) P (λ found.
            Ensures-bind (git.commit_tree tree (append "gen " g) found) last P (λ commit r c e.
              elim (Result-cases (anchored commit r).0) [
                | inl (done, set) ↦ (
                  commit,
                  ground arith,
                  subst (λ (t : Result CandidateResult × R). Points (retention_ref_of g) commit t.1)
                      (sym (bind-ok (anchored commit) (λ done. pure (candidate commit)) r done set))
                      (anchor-Ensures (retention_ref_of g) commit r done set),
                )
                | inr (x, failed) ↦ absurd (ground arith)
              ])))

    commit_candidate-Keeps :
        (accepted : List CompiledClaim) (parent : Option String) (descriptor : Json)
        (signature ref c : String)
        → Keeps (Points ref c) (
            commit_candidate encoding git keyring key_id profile accepted parent descriptor
              signature)
    unfolding commit_candidate
    commit_candidate-Keeps accepted parent descriptor signature ref c =
        commit_files-Keeps _ parent _ _ ref c

    commit_candidate_anchors :
        (accepted : List CompiledClaim) (parent : Option String) (descriptor : Json)
        (signature : String)
        → Ensures
            (commit_candidate encoding git keyring key_id profile accepted parent descriptor
              signature)
            IsAnchored
    unfolding commit_candidate
    commit_candidate_anchors accepted parent descriptor signature r c e =
        let (commit, same, points) = commit_files_anchors _ parent _ _ r c e in
        let after =
          (commit_candidate encoding git keyring key_id profile accepted parent descriptor signature
            r).1 in
        subst (λ (c : CandidateResult). IsAnchored c after) (sym same) (points, refl, refl)

    -- A build never moves a ref: what an anchor pointed to before a build it points to after it, whether
    -- the build succeeds or raises.
    pub build_candidate_keeps :
        (accepted : List CompiledClaim) (parent : Option String) (source root : String)
        (binding : Option Binding) (ref c : String) (r : R)
        → git.read_ref ref r ≡ some c
        → git.read_ref ref
            (build_candidate encoding git keyring key_id profile accepted parent source root binding
              r).1
          ≡ some c
    unfolding build_candidate
    build_candidate_keeps accepted parent source root binding ref c =
        let descriptor =
          candidate_descriptor encoding git keyring key_id profile accepted parent source root
            binding in
        Keeps-bind (Points ref c)
          (of_result encoding git keyring key_id profile
            (keyring.sign key_id (canonical_hash encoding descriptor)))
          (commit_candidate encoding git keyring key_id profile accepted parent descriptor)
          (λ r p. p)
          (λ signature. commit_candidate-Keeps accepted parent descriptor signature ref c)

    -- A candidate that is built is anchored: its retention ref points to its commit, and its id is the
    -- hash of its descriptor.
    pub build_candidate_anchors :
        (accepted : List CompiledClaim) (parent : Option String) (source root : String)
        (binding : Option Binding) (r : R) (c : CandidateResult)
        → (build_candidate encoding git keyring key_id profile accepted parent source root binding
            r).0
          ≡ ok c
        → IsAnchored c
            (build_candidate encoding git keyring key_id profile accepted parent source root binding
              r).1
    unfolding build_candidate
    build_candidate_anchors accepted parent source root binding =
        let descriptor =
          candidate_descriptor encoding git keyring key_id profile accepted parent source root
            binding in
        Ensures-bind
          (of_result encoding git keyring key_id profile
            (keyring.sign key_id (canonical_hash encoding descriptor)))
          (commit_candidate encoding git keyring key_id profile accepted parent descriptor)
          IsAnchored (λ signature. commit_candidate_anchors accepted parent descriptor signature)
