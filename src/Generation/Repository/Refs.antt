-- ===== src/Generation/Repository/Refs.antt =====
-- The refs of a repository under the methods of GitRepo.
use wiki_spike.Base.{
  String, true, false, ◌≡◌, ◌≢◌, refl, ap, sym, ◌∙◌, inl, inr, Option, none, some, List, [], ◌∷◌,
  arith, if◌then◌else◌, Bool-cases, ◌=s◌,
}
use wiki_spike.Base.Texts.{is_empty}
use wiki_spike.Exec.{Error, Result-cases, ok, err, ◌>>◌}
use wiki_spike.Models.{CompiledClaim}
use wiki_spike.Publish.Builder.{Binding}
use wiki_spike.Assembler.{Encoding}
use wiki_spike.Generation.{Keyring, CandidateResult, build_candidate, retention_ref_of}
use wiki_spike.Generation.Anchor.{
  IsGit, Keeps, Keeps-bind, build_candidate_keeps, build_candidate_anchors,
}
use wiki_spike.Generation.Repository.{
  Commands, add_files, write_tree_from_files, commit_tree, read_ref, zeros, create_ref_only,
  git_repo,
}

some_inj : {A : Type 0} {a b : A} → some a ≡ some b → a ≡ b
some_inj e = cc

eq_of : (s t : String) → (s =s t) ≡ true → s ≡ t
eq_of s t h = ground arith

module _ {R B : Type 0} (commands : Commands R B) where
  -- What git documents of refs: only `update-ref` changes them, and only the ref that it is given; it
  -- stores the object that it is given, which an empty text does not name; with zeros for the old value
  -- it refuses a ref that is there, and a call that is refused changes no ref.
  pub record IsDocumented : Type 0 where
    pub hash_keeps :
        (bytes : B) (r : R) (ref : String)
        → commands.rev_parse ref (commands.hash_object bytes r).1 ≡ commands.rev_parse ref r
    pub index_keeps :
        (index path oid : String) (r : R) (ref : String)
        → commands.rev_parse ref (commands.update_index index path oid r).1
          ≡ commands.rev_parse ref r
    pub tree_keeps :
        (index : String) (r : R) (ref : String)
        → commands.rev_parse ref (commands.write_tree index r).1 ≡ commands.rev_parse ref r
    pub commit_keeps :
        (tree message : String) (parent : Option String) (r : R) (ref : String)
        → commands.rev_parse ref (commands.commit_tree tree message parent r).1
          ≡ commands.rev_parse ref r
    pub unlink_keeps :
        (index : String) (r : R) (ref : String)
        → commands.rev_parse ref (commands.unlink index r) ≡ commands.rev_parse ref r
    pub update_names :
        (ref new old : String) (r : R)
        → (commands.update_ref ref new old r).0 ≡ ok tt
        → is_empty new ≡ false
    pub update_sets :
        (ref new old : String) (r : R)
        → (commands.update_ref ref new old r).0 ≡ ok tt
        → commands.rev_parse ref (commands.update_ref ref new old r).1 ≡ new
    pub update_others :
        (ref new old other : String) (r : R)
        → (ref =s other) ≡ false
        → commands.rev_parse other (commands.update_ref ref new old r).1
          ≡ commands.rev_parse other r
    pub update_refuses :
        (ref new : String) (r : R)
        → is_empty (commands.rev_parse ref r) ≡ false
        → (commands.update_ref ref new (zeros commands (commands.is_sha256 r)) r).0 ≢ ok tt
    pub refused_keeps :
        (ref new old other : String) (x : Error) (r : R)
        → (commands.update_ref ref new old r).0 ≡ err x
        → commands.rev_parse other (commands.update_ref ref new old r).1
          ≡ commands.rev_parse other r

  module _ (git : IsDocumented) where
    add_files-Keeps :
        (index : String) (files : List (String × B)) (ref out : String)
        → Keeps (λ r. commands.rev_parse ref r ≡ out) (add_files commands index files)
    unfolding add_files
    add_files-Keeps index [] ref out = λ r p. p
    add_files-Keeps index ((path, bytes) ∷ files) ref out =
        let P = λ (r : R). commands.rev_parse ref r ≡ out in
        Keeps-bind P (commands.hash_object bytes)
          (λ oid. commands.update_index index path oid >> add_files commands index files)
          (λ r p. git.hash_keeps bytes r ref ∙ p)
          (λ oid.
            Keeps-bind P (commands.update_index index path oid)
              (λ done. add_files commands index files)
              (λ r p. git.index_keeps index path oid r ref ∙ p)
              (λ done. add_files-Keeps index files ref out))

    write_keeps :
        (files : List (String × B)) (r : R) (ref : String)
        → commands.rev_parse ref (write_tree_from_files commands files r).1
          ≡ commands.rev_parse ref r
    unfolding write_tree_from_files
    write_keeps files r ref =
        let P = λ (s : R). commands.rev_parse ref s ≡ commands.rev_parse ref r in
        let index = commands.index_name r in
        git.unlink_keeps index _ ref
        ∙ Keeps-bind P (add_files commands index _) (λ done. commands.write_tree index)
            (add_files-Keeps index _ ref (commands.rev_parse ref r))
            (λ done s p. git.tree_keeps index s ref ∙ p) r refl

    read_ref-same :
        (ref : String) (r s : R)
        → commands.rev_parse ref s ≡ commands.rev_parse ref r
        → read_ref commands ref s ≡ read_ref commands ref r
    unfolding read_ref
    read_ref-same ref r s e = ap (λ out. if is_empty out then none else some out) e

    create_sets :
        (ref commit : String) (r : R)
        → (create_ref_only commands ref commit r).0 ≡ ok tt
        → read_ref commands ref (create_ref_only commands ref commit r).1 ≡ some commit
    unfolding read_ref create_ref_only
    create_sets ref commit r done =
        let old = zeros commands (commands.is_sha256 r) in
        rw (git.update_sets ref commit old r done)
          (rw (git.update_names ref commit old r done) refl)

    there :
        (ref c : String) (r : R)
        → read_ref commands ref r ≡ some c
        → is_empty (commands.rev_parse ref r) ≡ false
    unfolding read_ref
    there ref c r p = ground arith

    ref_is :
        (ref other c : String) (r : R)
        → (ref =s other) ≡ true
        → read_ref commands other r ≡ some c
        → read_ref commands ref r ≡ some c
    ref_is ref other c r same p = ap (λ name. read_ref commands name r) (eq_of ref other same) ∙ p

    create_keeps :
        (ref commit other c : String) (r : R)
        → read_ref commands other r ≡ some c
        → read_ref commands other (create_ref_only commands ref commit r).1 ≡ some c
    unfolding create_ref_only
    create_keeps ref commit other c r p =
        let old = zeros commands (commands.is_sha256 r) in
        let after = (commands.update_ref ref commit old r).1 in
        elim (Result-cases (commands.update_ref ref commit old r).0) [
          | inr (x, failed) ↦
              read_ref-same other r after (git.refused_keeps ref commit old other x r failed) ∙ p
          | inl (done, set) ↦ elim (Bool-cases (ref =s other)) [
            | inr apart ↦
                read_ref-same other r after (git.update_others ref commit old other r apart) ∙ p
            | inl same ↦
                absurd (
                  git.update_refuses ref commit r (there ref c r (ref_is ref other c r same p)) set)
          ]
        ]

    pub git_repo-IsGit : IsGit (git_repo commands)
    unfolding git_repo commit_tree
    git_repo-IsGit = record {
      write_keeps = λ files r ref. read_ref-same ref r _ (write_keeps files r ref);
      commit_keeps = λ tree message parent r ref.
          read_ref-same ref r _ (git.commit_keeps tree message _ r ref);
      create_sets = create_sets;
      create_keeps = create_keeps;
    }

    -- A generation id has one commit: where its retention ref pointed to a commit before a build that
    -- returns a candidate of the id, the candidate has that commit, and the ref points to it still.
    pub build_candidate_once :
        (encoding : Encoding B) (keyring : Keyring) (key_id profile : String)
        (accepted : List CompiledClaim) (parent : Option String) (source root : String)
        (binding : Option Binding) (commit : String) (r : R) (c : CandidateResult)
        → (build_candidate encoding
            (git_repo commands)
            keyring
            key_id
            profile
            accepted
            parent
            source
            root
            binding
            r).0
          ≡ ok c
        → read_ref commands (retention_ref_of c.generation_id) r ≡ some commit
        → (c.commit_oid ≡ commit)
          × (read_ref commands
                (retention_ref_of c.generation_id)
                (build_candidate encoding
                  (git_repo commands)
                  keyring
                  key_id
                  profile
                  accepted
                  parent
                  source
                  root
                  binding
                  r).1
              ≡ some commit)
    unfolding git_repo
    build_candidate_once encoding keyring key_id profile accepted parent source root binding commit
          r c made before =
        let repo = git_repo commands in
        let kept =
          build_candidate_keeps encoding repo keyring key_id profile git_repo-IsGit accepted parent
            source root binding (retention_ref_of c.generation_id) commit r before in
        let (points, name, hash) =
          build_candidate_anchors encoding repo keyring key_id profile git_repo-IsGit accepted
            parent source root binding r c made in
        let after =
          (build_candidate encoding repo keyring key_id profile accepted parent source root binding
            r).1 in
        let own = ap (λ ref. repo.read_ref ref after) (sym name) ∙ points in
        (some_inj (sym own ∙ kept), kept)
