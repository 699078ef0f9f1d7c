-- ===== src/Generation/Stored.antt =====
-- The files of a candidate in a commit that holds them: what is listed, and what is read back.
use wiki_spike.Base.{
  String, true, ◌&&◌, ◌||◌, ◌≡◌, refl, ap, sym, ◌∙◌, Option, none, some, List, [], ◌∷◌, ◌++◌,
  select, In, All-In, String-discrete, ◌=s◌, contains, arith,
}
use wiki_spike.Base.TextOrder.{leb_text}
use wiki_spike.Base.Sorting.{sort, sorted, All-sort}
use wiki_spike.Base.Optional.{◌>>=◌}
use wiki_spike.Table.{find}
use wiki_spike.Json.{Json, each, each-inverse}
use wiki_spike.Assembler.{Encoding}
use wiki_spike.Generation.{
  Git, Keyring, files_of, citation_path, snapshot_path, manifest_path, outbox_path,
}
use wiki_spike.Generation.Verify.{is_wiki, same_set, expected_paths, pages_of, read_page}
use wiki_spike.Base.Sorted.{select-sorted, contains-sorted, map-sort}
use wiki_spike.Generation.Listing.{
  path_of, paths, IsDict, contains-put, select-put, find-In, In-contains, find-put_other,
  find-put_own, apart, select_all, contains-select, contains-append, every-contains,
}

-- Each path of a page begins with `wiki/`
abbrev pub IsWiki : {B : Type 0} → List (String × B) → Type 0
IsWiki fs = (x : String) → contains (paths fs) x ≡ true → is_wiki x ≡ true

abbrev bytes_of : {B : Type 0} → Option (String × B) → Option B
bytes_of none = none
bytes_of (some f) = some f.1

abbrev pub bytes_at : {B : Type 0} → String → List (String × B) → Option B
bytes_at path fs = bytes_of (find String-discrete path_of path fs)

abbrev pub by_path : {B : Type 0} → List (String × B) → List (String × B)
by_path pages = sort (λ p q. leb_text (path_of p) (path_of q)) pages

-- A listing of pages and of four files is the set of its pages and of those files.
same_listing :
    (ls ws : List String) (a b c d : String)
    → ((x : String)
        → contains ls x ≡ ((d =s x) || ((c =s x) || ((b =s x) || ((a =s x) || contains ws x)))))
    → ((x : String) → contains ws x ≡ true → is_wiki x ≡ true)
    → same_set ls (select is_wiki ls ++ a ∷ b ∷ c ∷ d ∷ []) ≡ true
unfolding same_set
same_listing ls ws a b c d h wiki =
    let four = a ∷ b ∷ c ∷ d ∷ [] in
    let expected : (x : String)
        → contains (select is_wiki ls ++ four) x
          ≡ ((contains ls x && is_wiki x) || contains four x) =
      λ x.
        contains-append x (select is_wiki ls) four
        ∙ ap (λ t. t || contains four x) (contains-select is_wiki x ls) in
    let there =
      every-contains (select is_wiki ls ++ four) ls
        (λ x e. ground (arith, h x, wiki x, expected x, e)) in
    let back =
      every-contains ls (select is_wiki ls ++ four)
        (λ x e. ground (arith, h x, wiki x, expected x, e)) in
    ground (arith, there, back)

module _ {R B : Type 0} (same : Discrete B) (encoding : Encoding B) (git : Git R B)
    (keyring : Keyring) (key_id profile : String) where
  -- The commit holds the files, and lists them in the order of their paths.
  pub record Holds (commit : String) (files : List (String × B)) (r : R) : Type 0 where
    pub listed : git.ls_tree commit r ≡ sorted (paths files)
    pub read : (path : String) → git.cat_file commit path r ≡ bytes_at path files

  -- The files of a candidate
  module _ (pages : List (String × B)) (citation snapshot : B) (g : String) (manifest : Json)
      (dict : IsDict pages) (wiki : IsWiki pages) where
    abbrev pub files : List (String × B)
    files = files_of encoding git keyring key_id profile pages citation snapshot g manifest

    wiki_listed : select is_wiki (paths files) ≡ paths pages
    unfolding files_of
    wiki_listed =
        select-put is_wiki _ _ refl
        ∙ select-put is_wiki _ _ refl
        ∙ select-put is_wiki _ _ refl
        ∙ select-put is_wiki _ pages refl
        ∙ select_all is_wiki (paths pages) wiki

    find_page :
        (path : String)
        → is_wiki path ≡ true
        → find String-discrete path_of path files ≡ find String-discrete path_of path pages
    unfolding files_of
    find_page path h =
        find-put_other _ path _ (apart "wiki/" path (outbox_path g) h refl).1
        ∙ find-put_other _ path _ (apart "wiki/" path (manifest_path g) h refl).1
        ∙ find-put_other _ path _ (apart "wiki/" path snapshot_path h refl).1
        ∙ find-put_other _ path _ (apart "wiki/" path citation_path h refl).1

    has_file :
        (x : String)
        → contains (paths files) x ≡ (
            (outbox_path g =s x)
            || ((manifest_path g =s x)
                || ((snapshot_path =s x) || ((citation_path =s x) || contains (paths pages) x))))
    unfolding files_of
    has_file x =
        contains-put _ x _
        ∙ ap (λ b. (outbox_path g =s x) || b)
            (contains-put _ x _
              ∙ ap (λ b. (manifest_path g =s x) || b)
                  (contains-put _ x _
                    ∙ ap (λ b. (snapshot_path =s x) || b) (contains-put _ x pages)))

    pub find_manifest : bytes_at (manifest_path g) files ≡ some (encoding.canonical_bytes manifest)
    unfolding files_of
    find_manifest = ap bytes_of (
        find-put_other _ (manifest_path g) _
          (apart "manifest/" (manifest_path g) (outbox_path g) refl refl).1
        ∙ find-put_own _ _)

    pub find_snapshot : bytes_at snapshot_path files ≡ some snapshot
    unfolding files_of
    find_snapshot = ap bytes_of (
        find-put_other _ snapshot_path _ (apart "outbox/" (outbox_path g) snapshot_path refl refl).0
        ∙ find-put_other _ snapshot_path _
            (apart "manifest/" (manifest_path g) snapshot_path refl refl).0
        ∙ find-put_own _ _)

    pub find_citation : bytes_at citation_path files ≡ some citation
    unfolding files_of
    find_citation = ap bytes_of (
        find-put_other _ citation_path _ (apart "outbox/" (outbox_path g) citation_path refl refl).0
        ∙ find-put_other _ citation_path _
            (apart "manifest/" (manifest_path g) citation_path refl refl).0
        ∙ find-put_other _ citation_path _
            (apart "knowledge/" snapshot_path citation_path refl refl).0
        ∙ find-put_own _ pages)

    -- The pages are read back in the order of their paths.
    read_one :
        (commit : String) (r : R)
        → Holds commit files r
        → (f : String × B) → In f pages
        → read_page same encoding git keyring commit r f.0 ≡ some f
    read_one commit r holds_files f m =
        let at = find_page f.0 (wiki f.0 (In-contains f pages m)) ∙ find-In f pages dict m in
        ap (λ found. found >>= λ bytes. some (f.0, bytes)) (holds_files.read f.0 ∙ ap bytes_of at)

    pub read_pages :
        (commit : String) (r : R)
        → Holds commit files r
        → pages_of same encoding git keyring commit r ≡ some (by_path pages)
    unfolding pages_of
    read_pages commit r holds_files =
        let listed =
          ap (select is_wiki) holds_files.listed
          ∙ select-sorted is_wiki (paths files)
          ∙ ap sorted wiki_listed
          ∙ sym (map-sort path_of pages) in
        ap (each (read_page same encoding git keyring commit r)) listed
        ∙ each-inverse (read_page same encoding git keyring commit r) path_of (by_path pages)
            (All-sort _ _ pages (All-In _ pages (read_one commit r holds_files)))

    pub only_expected :
        (commit : String) (r : R)
        → Holds commit files r
        → same_set (git.ls_tree commit r) (expected_paths g (git.ls_tree commit r)) ≡ true
    unfolding same_set
    only_expected commit r holds_files =
        same_listing (git.ls_tree commit r) (paths pages) citation_path snapshot_path
          (manifest_path g) (outbox_path g)
          (λ x.
            ap (λ ls. contains ls x) holds_files.listed
            ∙ contains-sorted x (paths files)
            ∙ has_file x)
          wiki
