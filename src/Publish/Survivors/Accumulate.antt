-- ===== src/Publish/Survivors/Accumulate.antt =====
-- Which claims survive: knowledge accumulates, and only a revocation takes a claim away.
use wiki_spike.Base.{
  String, false, ◌≡◌, ◌≢◌, refl, ◌↔◌, ◌⊎◌, inl, inr, Option, none, some, List, [], ◌∷◌, arith, All,
  All-imp, Ordered, ◌∙◌, In, In-select, holds, String-discrete, if◌then◌else◌, select,
}
use wiki_spike.Base.Sorting.{sort, insert}
use wiki_spike.Table.{find}
use wiki_spike.Models.{CompiledClaim}
use wiki_spike.Publish.Survivors.{
  assertion_of, claim_of, put_claim, put_claims, contains, le_assertion, is_kept, survivors,
}

-- The newest claim with the assertion id `j`, or else `o`.
abbrev pub newest : String → List CompiledClaim → Option CompiledClaim → Option CompiledClaim
newest j [] o = o
newest j (c ∷ cs) o = newest j cs (if holds (String-discrete (assertion_of c) j) then some c else o)

abbrev get_claim : String → List CompiledClaim → Option CompiledClaim
get_claim = find String-discrete assertion_of

find-put_claim :
    (j : String) (c : CompiledClaim) (xs : List CompiledClaim)
    → get_claim j (put_claim c xs)
      ≡ (if holds (String-discrete (assertion_of c) j) then some c else get_claim j xs)
unfolding find put_claim
find-put_claim j c [] = ground arith
find-put_claim j c (x ∷ xs) = ground (arith, find-put_claim j c xs)

find-put_claims :
    (j : String) (cs acc : List CompiledClaim)
    → get_claim j (put_claims cs acc) ≡ newest j cs (get_claim j acc)
unfolding put_claims
find-put_claims j [] acc = refl
find-put_claims j (c ∷ cs) acc =
    rw (← find-put_claim j c acc) (find-put_claims j cs (put_claim c acc))

-- Each assertion id once.
abbrev IsKeyed : List CompiledClaim → Type 0
IsKeyed = Ordered (λ a b. assertion_of a ≢ assertion_of b)

put_claim-All :
    (a c : CompiledClaim) (xs : List CompiledClaim)
    → assertion_of a ≢ assertion_of c
    → All (λ b. assertion_of a ≢ assertion_of b) xs
    → All (λ b. assertion_of a ≢ assertion_of b) (put_claim c xs)
unfolding put_claim
put_claim-All a c [] n h = (n, tt)
put_claim-All a c (x ∷ xs) n h = ground (arith, put_claim-All a c xs)

put_claim-IsKeyed :
    (c : CompiledClaim) (xs : List CompiledClaim) → IsKeyed xs → IsKeyed (put_claim c xs)
unfolding put_claim
put_claim-IsKeyed c [] h = (tt, tt)
put_claim-IsKeyed c (x ∷ xs) (h, k) = elim (String-discrete (assertion_of x) (assertion_of c)) [
  | yes e ↦
      let moved =
        All-imp (λ b. assertion_of x ≢ assertion_of b) (λ b. assertion_of c ≢ assertion_of b) xs
          (λ b n q. n (e ∙ q)) h in
      ground arith
  | no n ↦ ground (arith, put_claim-All x c xs n h, put_claim-IsKeyed c xs k)
]

All-ne :
    (c : CompiledClaim) (xs : List CompiledClaim) (j : String)
    → All (λ b. j ≢ assertion_of b) xs
    → In c xs
    → j ≢ assertion_of c
All-ne c [] j h m = absurd m
All-ne c (x ∷ xs) j h (inl e) = rw (← e) h.0
All-ne c (x ∷ xs) j h (inr m) = All-ne c xs j h.1 m

In-find :
    (c : CompiledClaim) (xs : List CompiledClaim)
    → IsKeyed xs
    → In c xs ↔ (get_claim (assertion_of c) xs ≡ some c)
unfolding find
In-find c [] k = ground arith
In-find c (x ∷ xs) (h, k) = ground (arith, In-find c xs k, All-ne c xs (assertion_of x) h)

In-insert :
    (c a : CompiledClaim) (xs : List CompiledClaim)
    → In c (insert le_assertion a xs) ↔ ((a ≡ c) ⊎ In c xs)
unfolding insert
In-insert c a [] = ground arith
In-insert c a (x ∷ xs) = ground (arith, In-insert c a xs)

In-sort : (c : CompiledClaim) (xs : List CompiledClaim) → In c (sort le_assertion xs) ↔ In c xs
unfolding sort
In-sort c [] = ground arith
In-sort c (x ∷ xs) = ground (arith, In-sort c xs, In-insert c x (sort le_assertion xs))

put_claims-IsKeyed : (cs acc : List CompiledClaim) → IsKeyed acc → IsKeyed (put_claims cs acc)
unfolding put_claims
put_claims-IsKeyed [] acc h = h
put_claims-IsKeyed (c ∷ cs) acc h =
    put_claims-IsKeyed cs (put_claim c acc) (put_claim-IsKeyed c acc h)

-- A claim survives exactly when it is the newest with its assertion id, a new claim standing before
-- one of the parent, and its claim id is not revoked.
pub survivors_iff :
    (c : CompiledClaim) (parents new : List CompiledClaim) (revokes : List String)
    → In c (survivors parents new revokes) ↔ (
        (newest (assertion_of c) new (newest (assertion_of c) parents none) ≡ some c)
        × (contains revokes (claim_of c) ≡ false))
unfolding survivors find
survivors_iff c parents new revokes =
    let all = put_claims new (put_claims parents []) in
    let keyed = put_claims-IsKeyed new _ (put_claims-IsKeyed parents [] tt) in
    ground (
      arith,
      In-sort c (select (is_kept revokes) all),
      In-select (is_kept revokes) c all,
      In-find c all keyed,
      found c parents new,
    )
  where
    found :
        (c : CompiledClaim) (parents new : List CompiledClaim)
        → get_claim (assertion_of c) (put_claims new (put_claims parents []))
          ≡ newest (assertion_of c) new (newest (assertion_of c) parents none)
    found c parents new =
        rw
          (
            find-put_claims (assertion_of c) new (put_claims parents []),
            find-put_claims (assertion_of c) parents [],
          )
          refl
