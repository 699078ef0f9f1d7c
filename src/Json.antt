-- ===== src/Json.antt =====
-- The JSON values that canonical.py writes and json.loads reads: texts, null, arrays and objects; the
-- contracts write numbers as texts, and a Boolean stands here as a text, too. The code reads an object by its keys, so the order of
-- its members is free: here they stand in the order of the keys, as canonical bytes have them.
-- `none` stands for the exception of a wrong shape.
use wiki_spike.Base.{
  String, Option, none, some, List, [], ◌∷◌, if◌then◌else◌, ◌≡◌, refl, ◌=s◌, map, All, arith,
  Option-cases,
}
use wiki_spike.Base.Optional.{◌>>=◌}

mutual
  pub data Json : Type 0 where
    null : Json
    text : String → Json
    array : Items → Json
    object : Members → Json

  pub data Items : Type 0 where
    end : Items
    item : Json → Items → Items

  pub data Members : Type 0 where
    empty : Members
    member : String → Json → Members → Members

abbrev pub items : List Json → Items
items [] = end
items (v ∷ vs) = item v (items vs)

abbrev pub members : List (String × Json) → Members
members [] = empty
members ((key, v) ∷ rest) = member key v (members rest)

abbrev pub elements : Items → List Json
elements end = []
elements (item v vs) = v ∷ elements vs

abbrev pub member_of : String → Members → Option Json
member_of key empty = none
member_of key (member k v rest) = if k =s key then some v else member_of key rest

-- `d[key]`
abbrev pub lookup : String → Json → Option Json
lookup key (object fields) = member_of key fields
lookup key _ = none

abbrev pub as_text : Json → Option String
as_text (text s) = some s
as_text _ = none

abbrev pub as_list : Json → Option (List Json)
as_list (array vs) = some (elements vs)
as_list _ = none

-- A dict of texts.
abbrev pub texts : List (String × String) → Members
texts [] = empty
texts ((key, s) ∷ rest) = member key (text s) (texts rest)

abbrev pub text_members : Members → Option (List (String × String))
text_members empty = some []
text_members (member key v rest) = do
  s ← as_text v
  more ← text_members rest
  some ((key, s) ∷ more)

abbrev pub as_texts : Json → Option (List (String × String))
as_texts (object fields) = text_members fields
as_texts _ = none

-- `[f(x) for x in xs]` where `f` may raise
abbrev pub each : {A B : Type 0} → (A → Option B) → List A → Option (List B)
each f [] = some []
each f (x ∷ xs) = do y ← f x; ys ← each f xs; some (y ∷ ys)

pub elements-items : (vs : List Json) → elements (items vs) ≡ vs
elements-items [] = refl
elements-items (v ∷ vs) = rw (elements-items vs) refl

pub text_members-texts : (d : List (String × String)) → text_members (texts d) ≡ some d
text_members-texts [] = refl
text_members-texts ((key, s) ∷ rest) = rw (text_members-texts rest) refl

pub each-inverse :
    {A B : Type 0} (f : B → Option A) (g : A → B) (xs : List A)
    → All (λ x. f (g x) ≡ some x) xs
    → each f (map g xs) ≡ some xs
each-inverse f g [] h = refl
each-inverse f g (x ∷ xs) h = rw h.0 (rw (each-inverse f g xs h.1) refl)

-- What `f` promises of each result holds of all.
pub each-All :
    {A B : Type 0} (P : A → Type 0) (f : B → Option A) (vs : List B) (xs : List A)
    → ((v : B) (x : A) → f v ≡ some x → P x)
    → each f vs ≡ some xs
    → All P xs
each-All P f [] [] h e = tt
each-All P f [] (x ∷ xs) h e = cc
each-All P f (v ∷ vs) [] h e = ground (arith, Option-cases (f v), Option-cases (each f vs))
each-All P f (v ∷ vs) (x ∷ xs) h e =
    ground (arith, h v x, each-All P f vs xs h, Option-cases (f v), Option-cases (each f vs))
