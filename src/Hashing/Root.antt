-- ===== src/Hashing/Root.antt =====
-- The root of a Merkle tree: it is always found, it does not depend on the order of the leaves, and it
-- binds them.
use Prim.Native.String.{◌++◌ as append_text}
use text.Mathlib.TextLemmas.{append_cancel_left}
use mathlib.Core.List.{Perm}
use mathlib.Core.List.Perm
use mathlib.Core.Path.{subst}
use wiki_spike.Base.{
  ℕ, zero, suc, ◌+◌, ◌*◌, ◌≤◌, String, ◌≡◌, ◌≢◌, refl, ap, ◌∙◌, sym, some, List, [], ◌∷◌, map,
  length, In, All, ◌↔◌, ◌⊎◌, inl, inr, arith,
}
use wiki_spike.Base.Sorting.{sort, insert, sorted, sorted-perm_eq, All-sort}
use wiki_spike.Base.TextOrder.{leb_text}
use wiki_spike.Hashing.{
  Sha, leaf_digest, node_digest, pair_up, climb, merkle_root, option_map, leaf_prefix, node_prefix,
}

length-insert : (a : String) (xs : List String) → length (insert leb_text a xs) ≡ suc (length xs)
unfolding insert
length-insert a [] = refl
length-insert a (x ∷ xs) = ground (arith, length-insert a xs)

length-sorted : (xs : List String) → length (sorted xs) ≡ length xs
unfolding sorted sort
length-sorted [] = refl
length-sorted (x ∷ xs) = omega (arith, length-insert x (sorted xs), length-sorted xs)

In-insert : (a x : String) (xs : List String) → In a (insert leb_text x xs) ↔ ((x ≡ a) ⊎ In a xs)
unfolding insert
In-insert a x [] = ground arith
In-insert a x (y ∷ ys) = ground (arith, In-insert a x ys)

In-sorted : (a : String) (xs : List String) → In a (sorted xs) ↔ In a xs
unfolding sorted sort
In-sorted a [] = ground arith
In-sorted a (x ∷ xs) = ground (arith, In-insert a x (sorted xs), In-sorted a xs)

length-map : (f : String → String) (xs : List String) → length (map f xs) ≡ length xs
length-map f [] = refl
length-map f (x ∷ xs) = omega (arith, length-map f xs)

In-map : (f : String → String) (a : String) (xs : List String) → In a xs → In (f a) (map f xs)
In-map f a [] m = m
In-map f a (x ∷ xs) (inl e) = inl (ap f e)
In-map f a (x ∷ xs) (inr m) = inr (In-map f a xs m)

map-In :
    (f : String → String) (a : String) (xs : List String)
    → ((x y : String) → f x ≡ f y → x ≡ y)
    → In (f a) (map f xs)
    → In a xs
map-In f a [] inj m = m
map-In f a (x ∷ xs) inj (inl e) = inl (inj x a e)
map-In f a (x ∷ xs) inj (inr m) = inr (map-In f a xs inj m)

All-sorted : (P : String → Type 0) (xs : List String) → All P xs → All P (sorted xs)
unfolding sorted
All-sorted P xs h = All-sort leb_text P xs h

cons-ne-nil : {x : String} {xs : List String} → x ∷ xs ≢ []
cons-ne-nil e = cc

module _ (sha : Sha) where
  length-pair_up :
      (xs : List String)
      → (length xs ≤ 2 * length (pair_up sha xs)) × (2 * length (pair_up sha xs) ≤ length xs + 1)
  unfolding pair_up
  length-pair_up [] = omega arith
  length-pair_up (x ∷ []) = omega arith
  length-pair_up (x ∷ y ∷ rest) = omega (arith, length-pair_up rest)

  length-pair_up-eq :
      (xs ys : List String)
      → length xs ≡ length ys
      → length (pair_up sha xs) ≡ length (pair_up sha ys)
  length-pair_up-eq xs ys l = omega (arith, l, length-pair_up xs, length-pair_up ys)

  climb_total :
      (fuel : ℕ) (x : String) (xs : List String)
      → suc (length xs) ≤ fuel
      → (root : String) × (climb sha fuel (x ∷ xs) ≡ some root)
  unfolding climb pair_up
  climb_total zero x xs enough = absurd (omega arith)
  climb_total (suc fuel) x [] enough = (x, refl)
  climb_total (suc fuel) x (y ∷ rest) enough =
      climb_total fuel (node_digest sha x y) (pair_up sha rest) (omega (arith, length-pair_up rest))

  -- The root is always found: the rounds end.
  pub merkle_root_total :
      (leaves : List String) → (root : String) × (merkle_root sha leaves ≡ some root)
  unfolding merkle_root
  merkle_root_total [] = (_, refl)
  merkle_root_total (leaf ∷ leaves) =
      found (sorted (map (leaf_digest sha) (leaf ∷ leaves)))
        (omega (arith, length-sorted (map (leaf_digest sha) (leaf ∷ leaves))))
    where
      found :
          (nodes : List String)
          → 1 ≤ length nodes
          → (root : String) × (option_map sha.hex (climb sha (length nodes) nodes) ≡ some root)
      found [] some_node = absurd (omega arith)
      found (x ∷ xs) some_node =
          let (root, ends) = climb_total (suc (length xs)) x xs (omega arith) in
          (sha.hex root, rw ends refl)

  -- The root depends on the leaves and not on their order.
  pub merkle_root_perm :
      (xs ys : List String) → Perm xs ys → merkle_root sha xs ≡ merkle_root sha ys
  unfolding merkle_root
  merkle_root_perm [] [] p = refl
  merkle_root_perm [] (y ∷ ys) p = absurd (cons-ne-nil (sym (Perm.nil-eq p)))
  merkle_root_perm (x ∷ xs) [] p = absurd (cons-ne-nil (Perm.eq-nil p))
  merkle_root_perm (x ∷ xs) (y ∷ ys) p =
      ap (λ (nodes : List String). option_map sha.hex (climb sha (length nodes) nodes))
        (sorted-perm_eq _ _ (Perm.map (leaf_digest sha) p))

  -- An ideal hash: no two texts have the same digest, and no digest is the beginning of another, as all
  -- are of one size.
  pub record IsCollisionFree : Type 0 where
    pub digest_inj : (s t : String) → sha.digest s ≡ sha.digest t → s ≡ t
    pub digest_prefix :
        (s t x y : String)
        → append_text (sha.digest s) x ≡ append_text (sha.digest t) y
        → sha.digest s ≡ sha.digest t
    pub hex_inj : (s t : String) → sha.hex s ≡ sha.hex t → s ≡ t

  -- The texts that are digests.
  abbrev IsDigest : String → Type 0
  IsDigest d = (s : String) × (d ≡ sha.digest s)

  module _ (safe : IsCollisionFree) where
    node_digest_inj :
        (a b c d : String)
        → IsDigest a
        → IsDigest c
        → node_digest sha a b ≡ node_digest sha c d
        → (a ≡ c) × (b ≡ d)
    unfolding node_digest
    node_digest_inj a b c d (s, ea) (t, ec) e =
        let joined : append_text a b ≡ append_text c d =
          append_cancel_left node_prefix _ _ (safe.digest_inj _ _ e) in
        let framed : append_text (sha.digest s) b ≡ append_text (sha.digest t) d =
          ap (λ (l : String). append_text l b) (sym ea)
          ∙ joined
          ∙ ap (λ (l : String). append_text l d) ec in
        let same : a ≡ c = ea ∙ safe.digest_prefix s t b d framed ∙ sym ec in
        (same, append_cancel_left c b d (ap (λ (l : String). append_text l b) (sym same) ∙ joined))

    pair_up-IsDigest : (xs : List String) → All IsDigest (pair_up sha xs)
    unfolding pair_up node_digest
    pair_up-IsDigest [] = tt
    pair_up-IsDigest (x ∷ []) = ((_, refl), tt)
    pair_up-IsDigest (x ∷ y ∷ rest) = ((_, refl), pair_up-IsDigest rest)

    pair_up_inj :
        (xs ys : List String)
        → length xs ≡ length ys
        → All IsDigest xs
        → All IsDigest ys
        → pair_up sha xs ≡ pair_up sha ys
        → xs ≡ ys
    unfolding pair_up
    pair_up_inj [] [] l dx dy e = refl
    pair_up_inj [] (y ∷ ys) l dx dy e = absurd (omega (arith, l))
    pair_up_inj (x ∷ xs) [] l dx dy e = absurd (omega (arith, l))
    pair_up_inj (x ∷ []) (y ∷ []) l dx dy e = ground (arith, node_digest_inj x x y y dx.0 dy.0)
    pair_up_inj (x ∷ []) (y ∷ y' ∷ ys) l dx dy e = absurd (omega (arith, l))
    pair_up_inj (x ∷ x' ∷ xs) (y ∷ []) l dx dy e = absurd (omega (arith, l))
    pair_up_inj (x ∷ x' ∷ xs) (y ∷ y' ∷ ys) l dx dy e = ground (
      arith,
      node_digest_inj x x' y y' dx.0 dy.0,
      pair_up_inj xs ys (omega (arith, l)) dx.1.1 dy.1.1,
    )

    climb_inj :
        (fuel : ℕ) (xs ys : List String) (root : String)
        → length xs ≡ length ys
        → All IsDigest xs
        → All IsDigest ys
        → climb sha fuel xs ≡ some root
        → climb sha fuel ys ≡ some root
        → xs ≡ ys
    unfolding climb
    climb_inj zero xs ys root l dx dy ex ey = cc
    climb_inj (suc fuel) [] ys root l dx dy ex ey = cc
    climb_inj (suc fuel) (x ∷ xs) [] root l dx dy ex ey = absurd (omega (arith, l))
    climb_inj (suc fuel) (x ∷ []) (y ∷ []) root l dx dy ex ey = cc
    climb_inj (suc fuel) (x ∷ []) (y ∷ y' ∷ ys) root l dx dy ex ey = absurd (omega (arith, l))
    climb_inj (suc fuel) (x ∷ x' ∷ xs) (y ∷ []) root l dx dy ex ey = absurd (omega (arith, l))
    climb_inj (suc fuel) (x ∷ x' ∷ xs) (y ∷ y' ∷ ys) root l dx dy ex ey =
        pair_up_inj (x ∷ x' ∷ xs) (y ∷ y' ∷ ys) l dx dy (
          climb_inj fuel (pair_up sha (x ∷ x' ∷ xs)) (pair_up sha (y ∷ y' ∷ ys)) root
            (length-pair_up-eq (x ∷ x' ∷ xs) (y ∷ y' ∷ ys) l) (pair_up-IsDigest _)
            (pair_up-IsDigest _) ex ey)

    leaf_digest_inj : (s t : String) → leaf_digest sha s ≡ leaf_digest sha t → s ≡ t
    unfolding leaf_digest
    leaf_digest_inj s t e = append_cancel_left leaf_prefix s t (safe.digest_inj _ _ e)

    leaves-IsDigest : (xs : List String) → All IsDigest (map (leaf_digest sha) xs)
    unfolding leaf_digest
    leaves-IsDigest [] = tt
    leaves-IsDigest (x ∷ xs) = ((_, refl), leaves-IsDigest xs)

    same_climb :
        (nx ny : List String)
        → length nx ≡ length ny
        → 1 ≤ length nx
        → All IsDigest nx
        → All IsDigest ny
        → option_map sha.hex (climb sha (length nx) nx)
          ≡ option_map sha.hex (climb sha (length ny) ny)
        → nx ≡ ny
    same_climb [] ny l pos dx dy e = absurd (omega (arith, pos))
    same_climb (x ∷ xs) [] l pos dx dy e = absurd (omega (arith, l))
    same_climb (x ∷ xs) (y ∷ ys) l pos dx dy e =
        let fuel = suc (length xs) in
        let (rx, ex) = climb_total fuel x xs (omega arith) in
        let (ry, ey) = climb_total fuel y ys (omega (arith, l)) in
        let e' : option_map sha.hex (climb sha fuel (x ∷ xs))
            ≡ option_map sha.hex (climb sha fuel (y ∷ ys)) =
          subst
            (λ (n : ℕ).
              option_map sha.hex (climb sha fuel (x ∷ xs))
              ≡ option_map sha.hex (climb sha n (y ∷ ys)))
            (sym l) e in
        let same : rx ≡ ry = safe.hex_inj rx ry (cc) in
        climb_inj fuel (x ∷ xs) (y ∷ ys) rx l dx dy ex (ey ∙ ap some (sym same))

    same_root-sorted :
        (xs ys : List String)
        → length xs ≡ length ys
        → merkle_root sha xs ≡ merkle_root sha ys
        → sorted (map (leaf_digest sha) xs) ≡ sorted (map (leaf_digest sha) ys)
    unfolding merkle_root
    same_root-sorted [] [] l e = refl
    same_root-sorted [] (y ∷ ys) l e = absurd (omega (arith, l))
    same_root-sorted (x ∷ xs) [] l e = absurd (omega (arith, l))
    same_root-sorted (x ∷ xs) (y ∷ ys) l e =
        let nx = sorted (map (leaf_digest sha) (x ∷ xs)) in
        let ny = sorted (map (leaf_digest sha) (y ∷ ys)) in
        let lx = length-sorted (map (leaf_digest sha) (x ∷ xs)) in
        let ly = length-sorted (map (leaf_digest sha) (y ∷ ys)) in
        let same : length nx ≡ length ny = omega (
          arith,
          l,
          lx,
          ly,
          length-map (leaf_digest sha) (x ∷ xs),
          length-map (leaf_digest sha) (y ∷ ys),
        ) in
        same_climb nx ny same (omega (arith, lx)) (All-sorted IsDigest _ (leaves-IsDigest (x ∷ xs)))
          (All-sorted IsDigest _ (leaves-IsDigest (y ∷ ys))) e

  -- The root binds the leaves: where the hash is free of collisions, two lists of as many leaves with the
  -- same root have the same leaves.
  pub merkle_root_binds :
      IsCollisionFree
      → (xs ys : List String) → length xs ≡ length ys
      → merkle_root sha xs ≡ merkle_root sha ys
      → (leaf : String) → In leaf xs ↔ In leaf ys
  merkle_root_binds safe xs ys l e leaf = (
    binds xs ys (same_root-sorted safe xs ys l e),
    binds ys xs (same_root-sorted safe ys xs (sym l) (sym e)),
  )
    where
      binds :
          (xs ys : List String)
          → sorted (map (leaf_digest sha) xs) ≡ sorted (map (leaf_digest sha) ys)
          → In leaf xs
          → In leaf ys
      binds xs ys e m =
          let d = leaf_digest sha leaf in
          let here =
            (In-sorted d (map (leaf_digest sha) xs)).1 (In-map (leaf_digest sha) leaf xs m) in
          map-In (leaf_digest sha) leaf ys (leaf_digest_inj safe) (
            (In-sorted d (map (leaf_digest sha) ys)).0
              (subst (λ (zs : List String). In d zs) e here))
