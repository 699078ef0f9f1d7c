-- ===== src/Generation/Verify.antt =====
-- generation.py: `verify_manifest` and `verify_release`. `none` stands for an exception that leaves the
-- method; where the source catches it, the answer is `some false`.
use wiki_spike.Base.{
  String, Bool, true, false, not, ◌&&◌, ◌||◌, Option, none, some, List, [], ◌∷◌, ◌++◌, select,
  String-discrete, if◌then◌else◌, holds, ◌=s◌, contains,
}
use wiki_spike.Base.Optional.{◌>>=◌}
use wiki_spike.Base.Texts.{starts_with, is_empty}
use wiki_spike.Table.{find}
use wiki_spike.Json.{
  Json, Members, null, text, array, end, object, member, empty, member_of, lookup, as_text, each,
}
use wiki_spike.Assembler.{Encoding, canonical_hash}
use wiki_spike.Assembler.Pages.{render_pages, wiki_files_root}
use wiki_spike.Assembler.Citation.{build_citation_index}
use wiki_spike.Assembler.Snapshot.{parse_snapshot}
use wiki_spike.Generation.{
  Git, Keyring, citation_path, snapshot_path, manifest_path, outbox_path, release_path,
}

-- `d.get(key)`: an exception where `d` is no dict
abbrev pub get : String → Json → Option (Option Json)
get key (object fields) = some (member_of key fields)
get key _ = none

-- `d.get(key, {})`
abbrev pub or_object : Option Json → Json
or_object none = object empty
or_object (some v) = v

-- `x == text`
abbrev pub is_text : Option Json → String → Bool
is_text (some (text s)) t = s =s t
is_text _ t = false

-- `try: x = ... except Exception: return False`
abbrev pub or_false : {A : Type 0} → Option A → (A → Option Bool) → Option Bool
or_false none f = some false
or_false (some a) f = f a

-- `if not test: return False`
abbrev pub unless_false : Bool → Option Bool → Option Bool
unless_false test rest = if test then rest else some false

abbrev pub every : {A : Type 0} → (A → Bool) → List A → Bool
every p [] = true
every p (x ∷ xs) = p x && every p xs

-- Equality of sets
unfoldable pub same_set : List String → List String → Bool
same_set xs ys = every (contains ys) xs && every (contains xs) ys

abbrev pub is_wiki : String → Bool
is_wiki path = starts_with "wiki/" path

abbrev pub expected_paths : String → List String → List String
expected_paths g all_paths =
    select is_wiki all_paths ++ citation_path ∷ snapshot_path ∷ manifest_path g ∷ outbox_path g ∷ []

-- `{k: rm[k] for k in rm if k != key}`
abbrev without : String → Members → Members
without key empty = empty
without key (member k v rest) = if k =s key then without key rest else member k v (without key rest)

abbrev without_signature : Json → Json
without_signature (object fields) = object (without "signature" fields)
without_signature v = v

-- `not x` of a value that a dict may lack
abbrev is_missing : Option Json → Bool
is_missing none = true
is_missing (some null) = true
is_missing (some (text s)) = is_empty s
is_missing (some (array end)) = true
is_missing (some (object empty)) = true
is_missing (some _) = false

abbrev text_of : Option Json → Option String
text_of none = none
text_of (some v) = as_text v

module _ {R B : Type 0} (same : Discrete B) (encoding : Encoding B) (git : Git R B)
    (keyring : Keyring) where
  abbrev pub has_page : List (String × B) → String × B → Bool
  has_page pages (path, bytes) = elim (find String-discrete (λ (p : String × B). p.0) path pages) [
    | none ↦ false
    | some p ↦ holds (same p.1 bytes)
  ]

  -- Equality of dicts
  unfoldable pub same_pages : List (String × B) → List (String × B) → Bool
  same_pages a b = every (has_page b) a && every (has_page a) b

  -- `reconstructed`: the pages and the citation index are those of the snapshot
  unfoldable pub check_rendered : List (String × B) → B → B → Option Bool
  unfolding render_pages parse_snapshot same_pages build_citation_index
  check_rendered pages citation snapshot =
      or_false (parse_snapshot encoding snapshot) (λ reconstructed.
        unless_false (same_pages (render_pages encoding reconstructed) pages) (
          unless_false (holds (same (build_citation_index encoding reconstructed) citation))
            (some true)))

  unfoldable pub check_files : String → Json → List (String × B) → R → Option Bool
  unfolding check_rendered wiki_files_root
  check_files commit inline pages r = get "wiki_files_root" inline >>= λ wroot.
      unless_false (is_text wroot (wiki_files_root encoding pages)) (
        or_false (git.cat_file commit citation_path r) (λ citation.
          or_false (git.cat_file commit snapshot_path r) (λ snapshot.
            get "citation_index_digest" inline >>= λ cdigest.
            unless_false (is_text cdigest (encoding.sha256_hex citation)) (
              get "knowledge_snapshot_digest" inline >>= λ sdigest.
              unless_false (is_text sdigest (encoding.sha256_hex snapshot))
                (check_rendered pages citation snapshot)))))

  abbrev pub read_page : String → R → String → Option (String × B)
  read_page commit r path = git.cat_file commit path r >>= λ bytes. some (path, bytes)

  -- `{p: self.repo.cat_file(f"{commit_oid}:{p}") for p in wiki_paths}`
  unfoldable pub pages_of : String → R → Option (List (String × B))
  pages_of commit r = each (read_page commit r) (select is_wiki (git.ls_tree commit r))

  unfoldable pub check_content : String → String → Json → R → Option Bool
  unfolding check_files pages_of same_set
  check_content commit g descriptor r = get "inline_artifacts" descriptor >>= λ inline.
      let all_paths = git.ls_tree commit r in
      unless_false (same_set all_paths (expected_paths g all_paths))
        (pages_of commit r >>= λ pages. check_files commit (or_object inline) pages r)

  unfoldable pub check_manifest : String → String → Json → R → Option Bool
  unfolding check_content
  check_manifest commit g manifest r = get "generation_id" manifest >>= λ claimed.
      unless_false (is_text claimed g) (
        get "descriptor" manifest >>= λ found.
        unless_false (canonical_hash encoding (or_object found) =s g) (
          lookup "signer_key_id" manifest >>= as_text >>= λ signer.
          lookup "signature" manifest >>= as_text >>= λ signature.
          keyring.verify signer g signature >>= λ signed.
          unless_false signed (check_content commit g (or_object found) r)))

  unfoldable pub verify_manifest : String → String → R → Option Bool
  unfolding check_manifest
  verify_manifest commit g r =
      or_false (git.cat_file commit (manifest_path g) r)
        (λ raw. encoding.loads raw >>= λ manifest. check_manifest commit g manifest r)

  unfoldable pub check_release : String → Json → Option Bool
  check_release g release = get "generation_id" release >>= λ claimed.
      unless_false (is_text claimed g) (
        get "signature" release >>= λ signature. get "signer_key_id" release >>= λ signer.
        unless_false (not (is_missing signature || is_missing signer)) (
          text_of signer >>= λ key. text_of signature >>= λ hex.
          keyring.verify_domain key "wiki.release.v1"
            (canonical_hash encoding (without_signature release)) hex))

  unfoldable pub verify_release : String → String → R → Option Bool
  unfolding check_release
  verify_release commit g r =
      or_false (git.cat_file commit (release_path g) r)
        (λ raw. encoding.loads raw >>= λ release. check_release g release)
