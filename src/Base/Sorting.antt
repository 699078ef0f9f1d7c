-- ===== src/Base/Sorting.antt =====
-- Python's `sorted`. Its result depends on the items alone and not on their order, so any sorting
-- routine models it: this one inserts.
use mathlib.Core.HLevel.{hedberg}
use mathlib.Core.List.{Perm, Permᴰ}
use mathlib.Core.List.Perm
use mathlib.Core.Logic.{∥∥₁_elim}
use wiki_spike.Base.Tests.{if◌then◌else◌, String-discrete, Bool-cases}
use wiki_spike.Base.TextOrder.{leb_text, leb_text_total, leb_text_trans, leb_text_antisymm}
use wiki_spike.Base.Lists.{All}
use Prim.Native.String.{String}
use mathlib.Core.Bool.{Bool, true}
use mathlib.Core.List.{List, [], ◌∷◌}
use mathlib.Core.Logic.{◌⊎◌, inl, inr}
use mathlib.Core.Path.{◌≡◌, refl, ap₂, ◌∙◌}
use native.Mathlib.Omega.{arith}

-- A total order by a Boolean test.
pub record IsLinear {ℓ} {A : Type ℓ} (le : A → A → Bool) : Type ℓ where
  pub total : (a b : A) → (le a b ≡ true) ⊎ (le b a ≡ true)
  pub trans : (a b c : A) → le a b ≡ true → le b c ≡ true → le a c ≡ true
  pub antisymm : (a b : A) → le a b ≡ true → le b a ≡ true → a ≡ b

List-discrete {ℓ} : {A : Type ℓ} → Discrete A → Discrete (List A)
List-discrete dec = hlevel dec

module _ {ℓ} {A : Type ℓ} (le : A → A → Bool) where
  unfoldable pub insert : A → List A → List A
  insert a [] = a ∷ []
  insert a (x ∷ xs) = if le a x then a ∷ x ∷ xs else x ∷ insert a xs

  unfoldable pub sort : List A → List A
  unfolding insert
  sort [] = []
  sort (x ∷ xs) = insert x (sort xs)

  abbrev pub IsSorted : List A → Type ℓ
  IsSorted [] = Unit
  IsSorted (x ∷ xs) = All (λ y. le x y ≡ true) xs × IsSorted xs

  insert-perm : (a : A) (xs : List A) → Perm (insert a xs) (a ∷ xs)
  unfolding insert
  insert-perm a [] = Perm.refl (a ∷ [])
  insert-perm a (x ∷ xs) = elim (Bool-cases (le a x)) [
    | inl e ↦ rw e (Perm.refl (a ∷ x ∷ xs))
    | inr e ↦ rw e (Perm.trans (Perm.cons x (insert-perm a xs)) (Perm.swap a x xs))
  ]

  pub sort-perm : (xs : List A) → Perm (sort xs) xs
  unfolding sort
  sort-perm [] = Perm.refl []
  sort-perm (x ∷ xs) = Perm.trans (insert-perm x (sort xs)) (Perm.cons x (sort-perm xs))

  pub All-insert {κ} : (P : A → Type κ) (x : A) (xs : List A) → P x → All P xs → All P (insert x xs)
  unfolding insert
  All-insert P x [] p h = (p, tt)
  All-insert P x (y ∷ ys) p h = elim (Bool-cases (le x y)) [
    | inl e ↦ rw e (p, h)
    | inr e ↦ rw e (h.0, All-insert P x ys p h.1)
  ]

  pub All-sort {κ} : (P : A → Type κ) (xs : List A) → All P xs → All P (sort xs)
  unfolding sort
  All-sort P [] h = tt
  All-sort P (x ∷ xs) h = All-insert P x (sort xs) h.0 (All-sort P xs h.1)

  module _ (linear : IsLinear le) where
    insert_comm : (a b : A) (xs : List A) → insert a (insert b xs) ≡ insert b (insert a xs)
    unfolding insert
    insert_comm a b [] = ground (arith, linear.total a b, linear.antisymm a b)
    insert_comm a b (x ∷ xs) = ground (
      arith,
      linear.total a b,
      linear.antisymm a b,
      linear.trans a b x,
      linear.trans b a x,
      insert_comm a b xs,
    )

    sort-Permᴰ : {xs ys : List A} → Permᴰ xs ys → sort xs ≡ sort ys
    unfolding sort
    sort-Permᴰ Permᴰ.nil = refl
    sort-Permᴰ (Permᴰ.cons {a = x} e p) = ap₂ insert e (sort-Permᴰ p)
    sort-Permᴰ (Permᴰ.swap {a = x} {b = y} {l = l} p q) =
        insert_comm x y (sort l) ∙ ap₂ insert q (ap₂ insert p refl)
    sort-Permᴰ (Permᴰ.trans p q) = sort-Permᴰ p ∙ sort-Permᴰ q

    -- The order in which the items are given does not matter.
    pub sort-perm_eq : Discrete A → (xs ys : List A) → Perm xs ys → sort xs ≡ sort ys
    sort-perm_eq dec xs ys p = ∥∥₁_elim p (hedberg (List-discrete dec) _ _) sort-Permᴰ

unfoldable pub sorted : List String → List String
unfolding sort leb_text
sorted = sort leb_text

pub text-IsLinear : IsLinear leb_text
text-IsLinear = record {
  total = leb_text_total;
  trans = leb_text_trans;
  antisymm = leb_text_antisymm;
}

pub sorted-perm : (xs : List String) → Perm (sorted xs) xs
unfolding sorted
sorted-perm xs = sort-perm leb_text xs

pub sorted-perm_eq : (xs ys : List String) → Perm xs ys → sorted xs ≡ sorted ys
unfolding sorted
sorted-perm_eq xs ys p = sort-perm_eq leb_text text-IsLinear String-discrete xs ys p
