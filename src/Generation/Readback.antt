-- ===== src/Generation/Readback.antt =====
-- The pages of a candidate, as they are read back, are those of its snapshot.
use wiki_spike.Base.{
  String, Bool, true, false, ◌≡◌, refl, ap, sym, ◌∙◌, inl, inr, Option, none, some, List, [], ◌∷◌,
  All, All-In, All-imp, String-discrete, ◌=s◌, contains, arith, if◌then◌else◌, holds, map,
}
use wiki_spike.Base.TextOrder.{leb_text}
use wiki_spike.Base.Sorting.{sort, insert, All-sort}
use wiki_spike.Table.{find, put}
use wiki_spike.Json.{object, texts}
use wiki_spike.Models.{CompiledClaim}
use wiki_spike.Assembler.{Encoding, canonical_hash}
use wiki_spike.Assembler.Pages.{
  Subject, page_path, add_pages, render_pages, by_subject, wiki_files_root,
}
use wiki_spike.Assembler.Citation.{build_citation_index}
use wiki_spike.Assembler.Snapshot.{parse_snapshot}
use wiki_spike.Generation.{Git, Keyring}
use wiki_spike.Generation.Verify.{is_wiki, every, has_page, same_pages, check_rendered}
use wiki_spike.Base.Sorted.{map-sort, sort_key_again, contains-sorted}
use wiki_spike.Generation.Listing.{
  path_of, paths, IsDict, contains-put, put-IsDict, find-In, decide_eq,
}
use wiki_spike.Generation.Stored.{IsWiki, by_path}

holds_self : {A : Type 0} (dec : Discrete A) (a : A) → holds (dec a a) ≡ true
holds_self dec a = ground arith

module _ {B : Type 0} where
  find-insert :
      (k : String) (f : String × B) (fs : List (String × B))
      → contains (paths fs) f.0 ≡ false
      → find String-discrete path_of k
          (insert (λ (p : String × B) (q : String × B). leb_text p.0 q.0) f fs)
        ≡ find String-discrete path_of k (f ∷ fs)
  unfolding find insert
  find-insert k f [] fresh = refl
  find-insert k f (g ∷ gs) fresh = elim (decide_eq f.0 k) [
    | inl e ↦ ground (arith, find-insert k f gs, ap (λ h. g.0 =s h) e)
    | inr e ↦ ground (arith, find-insert k f gs, e)
  ]

  pub find-by_path :
      (k : String) (fs : List (String × B))
      → IsDict fs
      → find String-discrete path_of k (by_path fs) ≡ find String-discrete path_of k fs
  unfolding find sort
  find-by_path k [] d = refl
  find-by_path k (f ∷ fs) d =
      find-insert k f (by_path fs)
        (ap (λ xs. contains xs f.0) (map-sort path_of fs) ∙ contains-sorted f.0 (paths fs) ∙ d.0)
      ∙ ap (λ found. if f.0 =s k then some f else found) (find-by_path k fs d.1)

  every-All :
      (p : String × B → Bool) (fs : List (String × B))
      → All (λ f. p f ≡ true) fs
      → every p fs ≡ true
  every-All p [] h = refl
  every-All p (f ∷ fs) h = ground (arith, every-All p fs h.1, h.0)

abbrev subjects_of : List CompiledClaim → List Subject
subjects_of accepted = sort (λ a b. leb_text a.subject_id b.subject_id) (by_subject [] accepted)

module _ {B : Type 0} (encoding : Encoding B) where
  add_pages-IsDict :
      (subjects : List Subject) (pages : List (String × B))
      → IsDict pages
      → IsDict (add_pages encoding pages subjects)
  add_pages-IsDict [] pages d = d
  add_pages-IsDict (s ∷ rest) pages d = add_pages-IsDict rest _ (put-IsDict _ pages d)

  put-IsWiki :
      (f : String × B) (pages : List (String × B))
      → is_wiki f.0 ≡ true
      → IsWiki pages
      → IsWiki (put String-discrete path_of f pages)
  put-IsWiki f pages own w x h = elim (decide_eq f.0 x) [
    | inl e ↦ sym (ap is_wiki e) ∙ own
    | inr e ↦ w x (ground (arith, contains-put f x pages, e))
  ]

  add_pages-IsWiki :
      (subjects : List Subject) (pages : List (String × B))
      → IsWiki pages
      → IsWiki (add_pages encoding pages subjects)
  unfolding page_path
  add_pages-IsWiki [] pages w = w
  add_pages-IsWiki (s ∷ rest) pages w = add_pages-IsWiki rest _ (put-IsWiki _ pages refl w)

  pub render_pages-IsDict :
      (accepted : List CompiledClaim) → IsDict (render_pages encoding accepted)
  unfolding render_pages
  render_pages-IsDict accepted = add_pages-IsDict (subjects_of accepted) [] tt

  pub render_pages-IsWiki :
      (accepted : List CompiledClaim) → IsWiki (render_pages encoding accepted)
  unfolding render_pages
  render_pages-IsWiki accepted =
      add_pages-IsWiki (subjects_of accepted) [] (λ x h. absurd (ground arith))

  pub wiki_files_root-by_path :
      (pages : List (String × B))
      → wiki_files_root encoding (by_path pages) ≡ wiki_files_root encoding pages
  unfolding wiki_files_root
  wiki_files_root-by_path pages =
      ap
        (λ sorted_pages.
          canonical_hash encoding (
            object (texts (map (λ (p : String × B). (p.0, encoding.sha256_hex p.1)) sorted_pages))))
        (sort_key_again path_of pages)

module _ {R B : Type 0} (same : Discrete B) (encoding : Encoding B) (git : Git R B)
    (keyring : Keyring) where
  found-has_page :
      (pages : List (String × B)) (f : String × B)
      → find String-discrete path_of f.0 pages ≡ some f
      → has_page same encoding git keyring pages f ≡ true
  found-has_page pages f h =
      ap
        (λ (found : Option (String × B)). elim found [
          | none ↦ false
          | some p ↦ holds (same p.1 f.1)
        ])
        h
      ∙ holds_self same f.1

  same_pages-by_path :
      (pages : List (String × B))
      → IsDict pages
      → same_pages same encoding git keyring pages (by_path pages) ≡ true
  unfolding same_pages
  same_pages-by_path pages d =
      let own : All (λ f. find String-discrete path_of f.0 pages ≡ some f) pages =
        All-In _ pages (λ f m. find-In f pages d m) in
      let here = every-All _ pages (
        All-imp _ _ pages (λ f h. found-has_page (by_path pages) f (find-by_path f.0 pages d ∙ h))
          own) in
      let there =
        every-All _ (by_path pages)
          (All-sort _ _ pages (All-imp _ _ pages (λ f h. found-has_page pages f h) own)) in
      ground (arith, here, there)

  pub check_rendered-built :
      (accepted : List CompiledClaim) (pages : List (String × B)) (snapshot : B)
      → parse_snapshot encoding snapshot ≡ some accepted
      → pages ≡ by_path (render_pages encoding accepted)
      → check_rendered same encoding git keyring pages
          (build_citation_index encoding accepted)
          snapshot
        ≡ some true
  unfolding check_rendered
  check_rendered-built accepted pages snapshot read e = rw read (
      rw e (
        rw
          (same_pages-by_path (render_pages encoding accepted)
            (render_pages-IsDict encoding accepted))
          (rw (holds_self same (build_citation_index encoding accepted)) refl)))
