-- ===== src/Assembler/Citation.antt =====
-- assembler.py: `build_citation_index`.
use wiki_spike.Base.{
  String, Bool, ◌≡◌, refl, sym, ap, ◌∙◌, inl, inr, Bool-cases, none, some, List, [], ◌∷◌, ◌++◌, map,
  select, if◌then◌else◌, String-discrete, ◌=s◌, arith,
}
use wiki_spike.Base.TextOrder.{leb_text, leb_text_refl}
use wiki_spike.Base.Sorting.{sort, insert}
use wiki_spike.Table.{find}
use wiki_spike.Models.{CompiledClaim, Scope}
use wiki_spike.Json.{Json, text, array, object, Members, member, empty, items, texts, members}
use wiki_spike.Assembler.{Encoding}
use wiki_spike.Assembler.Pages.{claim_id}

-- What the index keeps of an assertion.
pub record Citation : Type 0 where
  pub assertion_id : String
  pub source_id : String
  pub evidence_id : String
  pub locators : List Scope

-- An item of `idx`.
pub record Cited : Type 0 where
  pub claim_id : String
  pub citations : List Citation

abbrev pub citation : CompiledClaim → Citation
citation c = record {
  assertion_id = c.assertion.assertion_id;
  source_id = c.assertion.source_id;
  evidence_id = c.evidence.evidence_id;
  locators = c.evidence.locators;
}

-- `idx.setdefault(claim_id, []).append(...)`
unfoldable pub cite : String → Citation → List Cited → List Cited
cite k c [] = record { claim_id = k; citations = c ∷ [] } ∷ []
cite k c (x ∷ xs) =
    if x.claim_id =s k then record x { citations = x.citations ++ c ∷ [] } ∷ xs else x ∷ cite k c xs

unfoldable pub cite_all : List Cited → List CompiledClaim → List Cited
unfolding cite
cite_all idx [] = idx
cite_all idx (c ∷ cs) = cite_all (cite (claim_id c) (citation c) idx) cs

abbrev pub by_assertion : Citation → Citation → Bool
by_assertion a b = leb_text a.assertion_id b.assertion_id

abbrev by_claim : Cited → Cited → Bool
by_claim a b = leb_text a.claim_id b.claim_id

abbrev in_order : Cited → Cited
in_order x = record x { citations = sort by_assertion x.citations }

unfoldable pub citation_index : List CompiledClaim → List Cited
unfolding cite_all sort
citation_index accepted = map in_order (sort by_claim (cite_all [] accepted))

abbrev citation_value : Citation → Json
citation_value c = object (
    members (
      ("assertion_id", text c.assertion_id)
      ∷ ("evidence_id", text c.evidence_id)
      ∷ ("locators", array (items (map (λ l. object (texts l)) c.locators)))
      ∷ ("source_id", text c.source_id)
      ∷ []))

abbrev index_members : List Cited → Members
index_members [] = empty
index_members (x ∷ xs) =
    member x.claim_id (array (items (map citation_value x.citations))) (index_members xs)

unfoldable pub build_citation_index : {B : Type 0} → Encoding B → List CompiledClaim → B
unfolding citation_index
build_citation_index encoding accepted =
    encoding.canonical_bytes
      (object (members (("claims", object (index_members (citation_index accepted))) ∷ [])))

-- `idx.get(claim_id, [])`
abbrev pub citations_of : String → List Cited → List Citation
citations_of k xs = elim (find String-discrete (λ (x : Cited). x.claim_id) k xs) [
  | none ↦ []
  | some x ↦ x.citations
]

citations_of-cite :
    (k j : String) (c : Citation) (xs : List Cited)
    → citations_of k (cite j c xs)
      ≡ (if j =s k then citations_of k xs ++ c ∷ [] else citations_of k xs)
unfolding cite find
citations_of-cite k j c [] = ground arith
citations_of-cite k j c (x ∷ xs) = ground (arith, citations_of-cite k j c xs)

append-one :
    (xs : List Citation) (c : Citation) (zs : List Citation) → (xs ++ c ∷ []) ++ zs ≡ xs ++ c ∷ zs
append-one [] c zs = refl
append-one (x ∷ xs) c zs = rw (append-one xs c zs) refl

append-nil : (xs : List Citation) → xs ++ [] ≡ xs
append-nil [] = refl
append-nil (x ∷ xs) = rw (append-nil xs) refl

citations_of-cite_all :
    (k : String) (accepted : List CompiledClaim) (idx : List Cited)
    → citations_of k (cite_all idx accepted)
      ≡ citations_of k idx ++ map citation (select (λ c. claim_id c =s k) accepted)
unfolding cite_all
citations_of-cite_all k [] idx = sym (append-nil (citations_of k idx))
citations_of-cite_all k (c ∷ cs) idx =
    citations_of-cite_all k cs (cite (claim_id c) (citation c) idx)
    ∙ elim (Bool-cases (claim_id c =s k)) [
      | inl e ↦
          rw (citations_of-cite k (claim_id c) (citation c) idx)
            (rw e (append-one (citations_of k idx) (citation c) _))
      | inr e ↦ rw (citations_of-cite k (claim_id c) (citation c) idx) (rw e refl)
    ]

find-insert :
    (k : String) (x : Cited) (xs : List Cited)
    → find String-discrete (λ (x : Cited). x.claim_id) k (insert by_claim x xs)
      ≡ (if x.claim_id =s k then some x else find String-discrete (λ (x : Cited). x.claim_id) k xs)
unfolding insert find
find-insert k x [] = ground arith
find-insert k x (y ∷ ys) = ground (arith, find-insert k x ys, leb_text_refl k)

find-sort :
    (k : String) (xs : List Cited)
    → find String-discrete (λ (x : Cited). x.claim_id) k (sort by_claim xs)
      ≡ find String-discrete (λ (x : Cited). x.claim_id) k xs
unfolding sort find
find-sort k [] = refl
find-sort k (x ∷ xs) = ground (arith, find-insert k x (sort by_claim xs), find-sort k xs)

citations_of-sort :
    (k : String) (xs : List Cited) → citations_of k (sort by_claim xs) ≡ citations_of k xs
citations_of-sort k xs = ground (arith, find-sort k xs)

citations_of-in_order :
    (k : String) (xs : List Cited)
    → citations_of k (map in_order xs) ≡ sort by_assertion (citations_of k xs)
unfolding find sort
citations_of-in_order k [] = refl
citations_of-in_order k (x ∷ xs) = ground (arith, citations_of-in_order k xs)

-- The index cites for a claim all that the accepted assertions of it say, each as often as it is
-- accepted, in the order of the assertions' ids, and nothing of other claims.
pub citations_of-citation_index :
    (k : String) (accepted : List CompiledClaim)
    → citations_of k (citation_index accepted)
      ≡ sort by_assertion (map citation (select (λ c. claim_id c =s k) accepted))
unfolding citation_index find
citations_of-citation_index k accepted =
    citations_of-in_order k (sort by_claim (cite_all [] accepted))
    ∙ ap (sort by_assertion)
        (citations_of-sort k (cite_all [] accepted) ∙ citations_of-cite_all k accepted [])
