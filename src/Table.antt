-- ===== src/Table.antt =====
-- Tables of the SQLite databases: rows in the order of insertion, found by their primary key.
use mathlib.Core.Option
use mathlib.Core.Path.{subst}
use wiki_spike.Base.{
  ◌≡◌, Option, none, some, List, [], ◌∷◌, ◌++◌, arith, holds, if◌then◌else◌, All, Bool-cases, inl,
  inr,
}

-- A row that is there stays.
abbrev pub or_else {ℓ} : {A : Type ℓ} → A → Option A → A
or_else r none = r
or_else r (some x) = x

module _ {K R : Type 0} (dec : Discrete K) (key : R → K) where
  -- SELECT ... WHERE key = k
  unfoldable pub find : K → List R → Option R
  find k [] = none
  find k (r ∷ rs) = if holds (dec (key r) k) then some r else find k rs

  -- UPDATE ... WHERE key = k
  unfoldable pub update : K → (R → R) → List R → List R
  update k f [] = []
  update k f (r ∷ rs) = (if holds (dec (key r) k) then f r else r) ∷ update k f rs

  -- INSERT OR IGNORE
  unfoldable pub insert_or_ignore : R → List R → List R
  insert_or_ignore r [] = r ∷ []
  insert_or_ignore r (x ∷ xs) =
      if holds (dec (key x) (key r)) then x ∷ xs else x ∷ insert_or_ignore r xs

  unfoldable pub delete : K → List R → List R
  delete k [] = []
  delete k (r ∷ rs) = if holds (dec (key r) k) then delete k rs else r ∷ delete k rs

  -- INSERT OR REPLACE: the old row goes, and the new one stands last
  unfoldable pub insert_or_replace : R → List R → List R
  unfolding delete
  insert_or_replace r rs = delete (key r) rs ++ r ∷ []

  -- `d[key] = r` of a dict: an item keeps its place
  unfoldable pub put : R → List R → List R
  put r [] = r ∷ []
  put r (x ∷ xs) = if holds (dec (key x) (key r)) then r ∷ xs else x ∷ put r xs

  pub find-put :
      (j : K) (r : R) (rs : List R)
      → find j (put r rs) ≡ (if holds (dec (key r) j) then some r else find j rs)
  unfolding find put
  find-put j r [] = ground arith
  find-put j r (x ∷ xs) = ground (arith, find-put j r xs)

  pub find-update :
      (j k : K) (f : R → R) (rs : List R)
      → ((r : R) → key (f r) ≡ key r)
      → find j (update k f rs) ≡ (if holds (dec k j) then Option.map f (find j rs) else find j rs)
  unfolding find update
  find-update j k f [] keep = ground arith
  find-update j k f (r ∷ rs) keep = ground (arith, keep r, find-update j k f rs keep)

  pub find-insert_or_ignore :
      (j : K) (r : R) (rs : List R)
      → find j (insert_or_ignore r rs)
        ≡ (if holds (dec (key r) j) then some (or_else r (find j rs)) else find j rs)
  unfolding find insert_or_ignore
  find-insert_or_ignore j r [] = ground arith
  find-insert_or_ignore j r (x ∷ xs) = ground (arith, find-insert_or_ignore j r xs)

  find-delete-append :
      (j : K) (r : R) (rs : List R)
      → find j (delete (key r) rs ++ r ∷ []) ≡ (if holds (dec (key r) j) then some r else find j rs)
  unfolding find delete
  find-delete-append j r [] = ground arith
  find-delete-append j r (x ∷ xs) = ground (arith, find-delete-append j r xs)

  pub find-insert_or_replace :
      (j : K) (r : R) (rs : List R)
      → find j (insert_or_replace r rs) ≡ (if holds (dec (key r) j) then some r else find j rs)
  unfolding insert_or_replace
  find-insert_or_replace j r rs = find-delete-append j r rs

  pub find-key : (j : K) (rs : List R) {r : R} → find j rs ≡ some r → key r ≡ j
  unfolding find
  find-key j [] h = cc
  find-key j (x ∷ xs) {r} h = ground (arith, find-key j xs {r = r})

  pub find-All {κ} :
      (P : R → Type κ) (j : K) (rs : List R) {r : R} → All P rs → find j rs ≡ some r → P r
  unfolding find
  find-All P j [] h e = cc
  find-All P j (x ∷ xs) {r} h e = elim (Bool-cases (holds (dec (key x) j))) [
    | inl here ↦ subst P (ground arith) h.0
    | inr later ↦ find-All P j xs {r = r} h.1 (ground arith)
  ]

  pub All-put {κ} : (P : R → Type κ) (r : R) (rs : List R) → P r → All P rs → All P (put r rs)
  unfolding put
  All-put P r [] p h = (p, tt)
  All-put P r (x ∷ xs) p h = elim (Bool-cases (holds (dec (key x) (key r)))) [
    | inl here ↦ rw here (p, h.1)
    | inr later ↦ rw later (h.0, All-put P r xs p h.1)
  ]
