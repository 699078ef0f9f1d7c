-- ===== src/Publish/Survivors/Sets.antt =====
-- The comparison of two sets of assertion ids, and the set of the revoked claims.
use wiki_spike.Base.{
  String, true, not, ◌&&◌, ◌≡◌, refl, ◌↔◌, List, [], ◌∷◌, map, arith, select, ◌=s◌,
}
use wiki_spike.Base.Sorting.{sort, insert, sorted}
use wiki_spike.Base.TextOrder.{leb_text}
use wiki_spike.Models.{CompiledClaim}
use wiki_spike.Publish.Survivors.{
  assertion_of, contains, is_subset, same_assertions, distinct, sorted_set,
}

is_subset-contains :
    (xs ys : List String) (j : String)
    → is_subset xs ys ≡ true
    → contains xs j ≡ true
    → contains ys j ≡ true
is_subset-contains [] ys j h m = cc
is_subset-contains (x ∷ xs) ys j h m = ground (arith, is_subset-contains xs ys j)

is_subset_cons :
    (x : String) (xs ys : List String) → is_subset xs ys ≡ true → is_subset xs (x ∷ ys) ≡ true
is_subset_cons x [] ys h = refl
is_subset_cons x (z ∷ xs) ys h = ground (arith, is_subset_cons x xs ys)

contains-is_subset :
    (xs ys : List String)
    → ((j : String) → contains xs j ≡ true → contains ys j ≡ true)
    → is_subset xs ys ≡ true
contains-is_subset [] ys h = refl
contains-is_subset (x ∷ xs) ys h =
    let here = h x (ground arith) in
    let rest = contains-is_subset xs ys (λ j m. h j (ground arith)) in ground arith

contains-select_other :
    (x : String) (xs : List String) (j : String)
    → contains (select (λ y. not (x =s y)) xs) j ≡ (not (x =s j) && contains xs j)
contains-select_other x [] j = ground arith
contains-select_other x (y ∷ ys) j = ground (arith, contains-select_other x ys j)

contains-distinct : (xs : List String) (j : String) → contains (distinct xs) j ≡ contains xs j
unfolding distinct
contains-distinct [] j = refl
contains-distinct (x ∷ xs) j =
    ground (arith, contains-distinct xs j, contains-select_other x (distinct xs) j)

contains-insert :
    (x : String) (xs : List String) (j : String)
    → contains (insert leb_text x xs) j ≡ contains (x ∷ xs) j
unfolding insert
contains-insert x [] j = refl
contains-insert x (y ∷ ys) j = ground (arith, contains-insert x ys j)

contains-sorted : (xs : List String) (j : String) → contains (sorted xs) j ≡ contains xs j
unfolding sorted sort
contains-sorted [] j = refl
contains-sorted (x ∷ xs) j =
    ground (arith, contains-sorted xs j, contains-insert x (sort leb_text xs) j)

pub contains-sorted_set :
    (xs : List String) (j : String) → contains (sorted_set xs) j ≡ contains xs j
contains-sorted_set xs j = ground (arith, contains-sorted (distinct xs) j, contains-distinct xs j)

-- Two lists of claims have the same assertions exactly when each assertion id that one has, the other
-- has, whatever the order and however often.
pub same_assertions_iff :
    (xs ys : List CompiledClaim)
    → (same_assertions xs ys ≡ true)
      ↔ ((j : String) → contains (map assertion_of xs) j ≡ contains (map assertion_of ys) j)
unfolding same_assertions
same_assertions_iff xs ys = (only, same)
  where
    a : List String
    a = map assertion_of xs

    b : List String
    b = map assertion_of ys

    only : (is_subset a b && is_subset b a) ≡ true → (j : String) → contains a j ≡ contains b j
    only h j = ground (arith, is_subset-contains a b j, is_subset-contains b a j)

    same : ((j : String) → contains a j ≡ contains b j) → (is_subset a b && is_subset b a) ≡ true
    same h =
        let there = contains-is_subset a b (λ j m. ground (arith, h j)) in
        let back = contains-is_subset b a (λ j m. ground (arith, h j)) in ground arith
