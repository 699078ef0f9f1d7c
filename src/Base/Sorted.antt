-- ===== src/Base/Sorted.antt =====
-- What sorting keeps: the order of what is sorted, its members, and what is selected or mapped.
use wiki_spike.Base.{
  String, Bool, true, false, ◌||◌, ◌≡◌, refl, ap, ◌∙◌, inl, inr, List, [], ◌∷◌, map, select, All,
  ◌⊎◌, ◌=s◌, contains, arith, if◌then◌else◌, Bool-cases,
}
use wiki_spike.Base.TextOrder.{leb_text, leb_text_total, leb_text_trans}
use wiki_spike.Base.Sorting.{sort, insert, sorted, IsSorted, All-insert}

-- A test that is total and transitive, as that of a sort key is
module _ {A : Type 0} (le : A → A → Bool) (total : (a b : A) → (le a b ≡ true) ⊎ (le b a ≡ true))
    (trans : (a b c : A) → le a b ≡ true → le b c ≡ true → le a c ≡ true) where
  All-above :
      (a x : A) (xs : List A)
      → le a x ≡ true
      → All (λ y. le x y ≡ true) xs
      → All (λ y. le a y ≡ true) xs
  All-above a x [] e h = tt
  All-above a x (y ∷ ys) e h = (trans a x y e h.0, All-above a x ys e h.1)

  other_way : (a x : A) → le a x ≡ false → le x a ≡ true
  other_way a x e = ground (arith, total a x)

  insert-IsSorted : (a : A) (xs : List A) → IsSorted le xs → IsSorted le (insert le a xs)
  unfolding insert
  insert-IsSorted a [] s = (tt, tt)
  insert-IsSorted a (x ∷ xs) s = elim (Bool-cases (le a x)) [
    | inl e ↦ rw e ((e, All-above a x xs e s.0), s)
    | inr e ↦
        rw e
          (All-insert le (λ y. le x y ≡ true) a xs (other_way a x e) s.0, insert-IsSorted a xs s.1)
  ]

  pub sort-IsSorted : (xs : List A) → IsSorted le (sort le xs)
  unfolding sort
  sort-IsSorted [] = tt
  sort-IsSorted (x ∷ xs) = insert-IsSorted x (sort le xs) (sort-IsSorted xs)

  insert-least : (a : A) (xs : List A) → All (λ y. le a y ≡ true) xs → insert le a xs ≡ a ∷ xs
  unfolding insert
  insert-least a [] h = refl
  insert-least a (x ∷ xs) h = rw h.0 refl

  All-select {κ} : (P : A → Type κ) (p : A → Bool) (xs : List A) → All P xs → All P (select p xs)
  All-select P p [] h = tt
  All-select P p (x ∷ xs) h = elim (Bool-cases (p x)) [
    | inl e ↦ rw e (h.0, All-select P p xs h.1)
    | inr e ↦ rw e (All-select P p xs h.1)
  ]

  select-insert :
      (p : A → Bool) (a : A) (xs : List A)
      → IsSorted le xs
      → select p (insert le a xs) ≡ (if p a then insert le a (select p xs) else select p xs)
  unfolding insert
  select-insert p a [] s = refl
  select-insert p a (x ∷ xs) s = elim (Bool-cases (le a x)) [
    | inl e ↦
        let least =
          insert-least a (select p (x ∷ xs))
            (All-select (λ y. le a y ≡ true) p (x ∷ xs) (e, All-above a x xs e s.0)) in
        ground (arith, least)
    | inr e ↦ ground (arith, select-insert p a xs s.1)
  ]

  pub select-sort : (p : A → Bool) (xs : List A) → select p (sort le xs) ≡ sort le (select p xs)
  unfolding sort
  select-sort p [] = refl
  select-sort p (x ∷ xs) =
      ground (arith, select-insert p x (sort le xs) (sort-IsSorted xs), select-sort p xs)

  pub sort_again : (xs : List A) → IsSorted le xs → sort le xs ≡ xs
  unfolding sort
  sort_again [] s = refl
  sort_again (x ∷ xs) s = ap (insert le x) (sort_again xs s.1) ∙ insert-least x xs s.0

-- Sorting by a key
module _ {A : Type 0} (key : A → String) where
  map-insert :
      (a : A) (xs : List A)
      → map key (insert (λ x y. leb_text (key x) (key y)) a xs)
        ≡ insert leb_text (key a) (map key xs)
  unfolding insert
  map-insert a [] = refl
  map-insert a (x ∷ xs) = elim (Bool-cases (leb_text (key a) (key x))) [
    | inl e ↦ rw e refl
    | inr e ↦ rw e (ap (λ ys. key x ∷ ys) (map-insert a xs))
  ]

  pub map-sort :
      (xs : List A) → map key (sort (λ x y. leb_text (key x) (key y)) xs) ≡ sorted (map key xs)
  unfolding sort sorted
  map-sort [] = refl
  map-sort (x ∷ xs) = map-insert x _ ∙ ap (insert leb_text (key x)) (map-sort xs)

  pub sort_key_again :
      (xs : List A)
      → sort (λ x y. leb_text (key x) (key y)) (sort (λ x y. leb_text (key x) (key y)) xs)
        ≡ sort (λ x y. leb_text (key x) (key y)) xs
  sort_key_again xs =
      sort_again _ (λ a b. leb_text_total (key a) (key b))
        (λ a b c. leb_text_trans (key a) (key b) (key c)) _
        (sort-IsSorted _ (λ a b. leb_text_total (key a) (key b))
          (λ a b c. leb_text_trans (key a) (key b) (key c)) xs)

pub select-sorted :
    (p : String → Bool) (xs : List String) → select p (sorted xs) ≡ sorted (select p xs)
unfolding sorted
select-sorted = select-sort leb_text leb_text_total leb_text_trans

contains-insert :
    (a x : String) (xs : List String)
    → contains (insert leb_text a xs) x ≡ ((a =s x) || contains xs x)
unfolding insert
contains-insert a x [] = refl
contains-insert a x (y ∷ ys) = ground (arith, contains-insert a x ys)

pub contains-sorted : (x : String) (xs : List String) → contains (sorted xs) x ≡ contains xs x
unfolding sorted sort
contains-sorted x [] = refl
contains-sorted x (y ∷ ys) = ground (arith, contains-insert y x (sorted ys), contains-sorted x ys)
