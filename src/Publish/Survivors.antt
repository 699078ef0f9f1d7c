-- ===== src/Publish/Survivors.antt =====
-- The claims of the next generation: those of the parent, the new ones over them, and the revoked
-- ones left out. `by_assertion` is a dict, so a new item takes the place of an old one.
pub mod Accumulate
pub mod Sets
use wiki_spike.Base.{
  String, Bool, not, ◌&&◌, Option, none, some, List, [], ◌∷◌, map, select, any, ◌=s◌, holds,
  String-discrete, if◌then◌else◌,
}
pub use wiki_spike.Base.{contains}
use wiki_spike.Base.Sorting.{sort, sorted}
use wiki_spike.Base.TextOrder.{leb_text}
use wiki_spike.Models.{CompiledClaim}
use wiki_spike.Publish.Builder.{Decision}

abbrev pub assertion_of : CompiledClaim → String
assertion_of c = c.assertion.assertion_id

abbrev pub claim_of : CompiledClaim → String
claim_of c = c.identity.claim_id

-- `by_assertion[item.assertion.assertion_id] = item`
unfoldable pub put_claim : CompiledClaim → List CompiledClaim → List CompiledClaim
put_claim c [] = c ∷ []
put_claim c (x ∷ xs) =
    if holds (String-discrete (assertion_of x) (assertion_of c)) then c ∷ xs else x ∷ put_claim c xs

unfoldable pub put_claims : List CompiledClaim → List CompiledClaim → List CompiledClaim
unfolding put_claim
put_claims [] acc = acc
put_claims (c ∷ cs) acc = put_claims cs (put_claim c acc)

abbrev pub le_assertion : CompiledClaim → CompiledClaim → Bool
le_assertion a b = leb_text (assertion_of a) (assertion_of b)

abbrev pub is_kept : List String → CompiledClaim → Bool
is_kept revokes c = not (contains revokes (claim_of c))

unfoldable pub survivors :
    List CompiledClaim → List CompiledClaim → List String → List CompiledClaim
unfolding put_claims sort
survivors parents new revokes =
    sort le_assertion (select (is_kept revokes) (put_claims new (put_claims parents [])))

-- `surviving_ids == parent_ids`, on sets
abbrev pub is_subset : List String → List String → Bool
is_subset [] ys = Bool.true
is_subset (x ∷ xs) ys = contains ys x && is_subset xs ys

unfoldable pub same_assertions : List CompiledClaim → List CompiledClaim → Bool
same_assertions xs ys =
    is_subset (map assertion_of xs) (map assertion_of ys)
    && is_subset (map assertion_of ys) (map assertion_of xs)

-- The items of a set: each once.
unfoldable pub distinct : List String → List String
distinct [] = []
distinct (x ∷ xs) = x ∷ select (λ y. not (x =s y)) (distinct xs)

-- `sorted(set(...))`
abbrev pub sorted_set : List String → List String
sorted_set xs = sorted (distinct xs)

unfoldable pub decisions : List CompiledClaim → List Decision
unfolding distinct
decisions surviving =
    map
      (λ (claim_id : String). record {
        claim_id = claim_id;
        assertion_ids = sorted (map assertion_of (select (λ c. claim_of c =s claim_id) surviving));
      })
      (sorted_set (map claim_of surviving))
