-- ===== src/Generation/Listing.antt =====
-- Files by their paths: a dict of files, and the listing of a commit that holds them.
use wiki_spike.Base.{
  String, Bool, true, false, ◌&&◌, ◌||◌, ◌≡◌, refl, ap, ◌∙◌, inl, inr, some, List, [], ◌∷◌, map,
  select, In, ◌++◌, ◌⊎◌, holds, String-discrete, ◌=s◌, =s-self, contains, arith, if◌then◌else◌,
  Bool-cases,
}
use wiki_spike.Base.Texts.{starts_with}
use wiki_spike.Table.{find, put, find-put}
use wiki_spike.Generation.Verify.{every}

=s_comm : (s t : String) → (s =s t) ≡ (t =s s)
=s_comm s t = ground arith

pub decide_eq : (s t : String) → (s ≡ t) ⊎ ((s =s t) ≡ false)
decide_eq s t = ground arith

pub contains-select :
    (p : String → Bool) (x : String) (xs : List String)
    → contains (select p xs) x ≡ (contains xs x && p x)
contains-select p x [] = refl
contains-select p x (y ∷ ys) = elim (decide_eq y x) [
  | inl e ↦ ground (arith, contains-select p x ys, ap p e)
  | inr e ↦ ground (arith, contains-select p x ys, e)
]

pub contains-append :
    (x : String) (xs ys : List String) → contains (xs ++ ys) x ≡ (contains xs x || contains ys x)
contains-append x [] ys = refl
contains-append x (y ∷ xs) ys = ground (arith, contains-append x xs ys)

pub every-contains :
    (ys xs : List String)
    → ((x : String) → contains xs x ≡ true → contains ys x ≡ true)
    → every (contains ys) xs ≡ true
every-contains ys [] h = refl
every-contains ys (x ∷ xs) h =
    ground (arith, h x, =s-self x, every-contains ys xs (λ z e. h z (ground arith)))

pub select_all :
    (p : String → Bool) (xs : List String)
    → ((x : String) → contains xs x ≡ true → p x ≡ true)
    → select p xs ≡ xs
select_all p [] h = refl
select_all p (x ∷ xs) h =
    ground (arith, h x, =s-self x, select_all p xs (λ z e. h z (ground arith)))

-- Texts with different beginnings
pub apart :
    (p s t : String)
    → starts_with p s ≡ true
    → starts_with p t ≡ false
    → ((s =s t) ≡ false) × ((t =s s) ≡ false)
apart p s t hs ht = elim (decide_eq s t) [
  | inl e ↦ absurd (ground (arith, ap (starts_with p) e))
  | inr e ↦ (e, ground (arith, e, =s_comm s t))
]

-- A dict of files
module _ {B : Type 0} where
  abbrev pub path_of : String × B → String
  path_of f = f.0

  abbrev pub paths : List (String × B) → List String
  paths = map path_of

  -- The paths are all different
  abbrev pub IsDict : List (String × B) → Type 0
  IsDict [] = Unit
  IsDict (f ∷ fs) = (contains (paths fs) f.0 ≡ false) × IsDict fs

  pub contains-put :
      (f : String × B) (x : String) (fs : List (String × B))
      → contains (paths (put String-discrete path_of f fs)) x
        ≡ ((f.0 =s x) || contains (paths fs) x)
  unfolding put
  contains-put f x [] = refl
  contains-put f x (g ∷ gs) = elim (decide_eq g.0 f.0) [
    | inl e ↦ ground (arith, ap (λ k. k =s x) e)
    | inr e ↦ ground (arith, e, contains-put f x gs)
  ]

  pub put-IsDict :
      (f : String × B) (fs : List (String × B))
      → IsDict fs
      → IsDict (put String-discrete path_of f fs)
  unfolding put
  put-IsDict f [] d = (refl, tt)
  put-IsDict f (g ∷ gs) d = elim (decide_eq g.0 f.0) [
    | inl e ↦ ground (arith, ap (contains (paths gs)) e)
    | inr e ↦ ground (arith, e, contains-put f g.0 gs, put-IsDict f gs, =s_comm g.0 f.0)
  ]

  pub select-put :
      (p : String → Bool) (f : String × B) (fs : List (String × B))
      → p f.0 ≡ false
      → select p (paths (put String-discrete path_of f fs)) ≡ select p (paths fs)
  unfolding put
  select-put p f [] e = ground arith
  select-put p f (g ∷ gs) e = elim (decide_eq g.0 f.0) [
    | inl same ↦ ground (arith, ap p same)
    | inr other ↦ ground (arith, select-put p f gs e)
  ]

  pub In-contains :
      (f : String × B) (fs : List (String × B)) → In f fs → contains (paths fs) f.0 ≡ true
  In-contains f [] m = elim m [ ]
  In-contains f (g ∷ gs) (inl e) = ground (arith, =s-self g.0, ap (λ h. g.0 =s path_of h) e)
  In-contains f (g ∷ gs) (inr m) = ground (arith, In-contains f gs m)

  pub find-In :
      (f : String × B) (fs : List (String × B))
      → IsDict fs
      → In f fs
      → find String-discrete path_of f.0 fs ≡ some f
  unfolding find
  find-In f [] d m = elim m [ ]
  find-In f (g ∷ gs) d (inl e) = ground (arith, =s-self g.0, ap path_of e)
  find-In f (g ∷ gs) d (inr m) = elim (decide_eq g.0 f.0) [
    | inl same ↦ absurd (ground (arith, In-contains f gs m, d.0, ap (contains (paths gs)) same))
    | inr other ↦ ground (arith, find-In f gs d.1 m)
  ]

  pub found :
      (x : String) (fs : List (String × B))
      → contains (paths fs) x ≡ true
      → (f : String × B) × (find String-discrete path_of x fs ≡ some f)
  unfolding find
  found x [] h = absurd (ground arith)
  found x (g ∷ gs) h = elim (Bool-cases (holds (String-discrete g.0 x))) [
    | inl e ↦ (g, rw e refl)
    | inr e ↦ let (f, at) = found x gs (ground (arith, h, e)) in (f, rw e at)
  ]

  pub find-put_other :
      (f : String × B) (x : String) (fs : List (String × B))
      → (f.0 =s x) ≡ false
      → find String-discrete path_of x (put String-discrete path_of f fs)
        ≡ find String-discrete path_of x fs
  find-put_other f x fs e =
      find-put String-discrete path_of x f fs
      ∙ ap (λ b. if b then some f else find String-discrete path_of x fs) e

  pub find-put_own :
      (f : String × B) (fs : List (String × B))
      → find String-discrete path_of f.0 (put String-discrete path_of f fs) ≡ some f
  find-put_own f fs =
      find-put String-discrete path_of f.0 f fs
      ∙ ap (λ b. if b then some f else find String-discrete path_of f.0 fs) (=s-self f.0)
