-- ===== src/Base/Tests.antt =====
-- Boolean tests on numbers and texts, and the conditional.
use Prim.Native.Nat.{ℕ, compare, Ordering}
use Prim.Native.String.{String}
use mathlib.Core.Path.{◌≡◌, refl, ap}
use mathlib.Core.Logic.{◌≢◌, ◌⊎◌, inl, inr}
use mathlib.Core.Bool.{Bool, true, false}
use mathlib.Core.Option.{Option, none, some}
use native.Mathlib.Omega.{arith}
use text.Mathlib.Text.{◌==◌ as text_eq}
use text.Mathlib.TextEquality.{eq_iff}

abbrev pub ltb : ℕ → ℕ → Bool
ltb a b = elim (compare a b) [ Ordering.lt ↦ true | _ ↦ false ]

abbrev pub leb : ℕ → ℕ → Bool
leb a b = elim (compare a b) [ Ordering.gt ↦ false | _ ↦ true ]

infix 50 ◌==◌
abbrev pub ◌==◌ : ℕ → ℕ → Bool
a == b = elim (compare a b) [ Ordering.eq ↦ true | _ ↦ false ]

infix 1 if◌then◌else◌
abbrev pub if◌then◌else◌ {ℓ} : {A : Type ℓ} → Bool → A → A → A
if true then x else y = x
if false then x else y = y

pub Bool-cases : (b : Bool) → (b ≡ true) ⊎ (b ≡ false)
Bool-cases true = inl refl
Bool-cases false = inr refl

pub Option-cases {ℓ} : {A : Type ℓ} (o : Option A) → (o ≡ none) ⊎ ((a : A) × (o ≡ some a))
Option-cases none = inl refl
Option-cases (some a) = inr (a, refl)

decide_text : (s t : String) → (text_eq s t ≡ true) ⊎ (text_eq s t ≡ false) → Dec (s ≡ t)
decide_text s t (inl e) = yes ((eq_iff s t).0 e)
decide_text s t (inr e) = no (λ p. false_true s t e ((eq_iff s t).1 p))
  where
    false_true : (s t : String) → text_eq s t ≡ false → text_eq s t ≡ true → ⊥
    false_true s t e p = cc

-- Texts are compared by a decision, so that the tactics read the equation from the test.
unfoldable pub String-discrete : Discrete String
unfolding decide_text Bool-cases
String-discrete s t = decide_text s t (Bool-cases (text_eq s t))

abbrev pub holds {ℓ} : {P : Type ℓ} → Dec P → Bool
holds (yes p) = true
holds (no p) = false

infix 50 ◌=s◌ ◌=o◌
abbrev pub ◌=s◌ : String → String → Bool
s =s t = holds (String-discrete s t)

pub =s-self : (s : String) → (s =s s) ≡ true
=s-self s = ground arith

-- Equality of values that may be absent: SQL's NULL and Python's None.
abbrev pub ◌=o◌ : Option String → Option String → Bool
none =o none = true
some s =o some t = s =s t
_ =o _ = false

pub =o→eq : (a b : Option String) → (a =o b) ≡ true → a ≡ b
=o→eq a b h = ground arith

pub =o-self : (a : Option String) → (a =o a) ≡ true
=o-self a = ground arith

-- Keys of two texts.
unfoldable pub Key-discrete : Discrete (String × String)
unfolding String-discrete
Key-discrete (a, b) (c, d) = both (String-discrete a c) (String-discrete b d)
  where
    both : Dec (a ≡ c) → Dec (b ≡ d) → Dec (◌≡◌ {A = String × String} (a, b) (c, d))
    both (yes p) (yes q) = yes (λ i. (p i, q i))
    both (yes p) (no q) = no (λ e. q (ap (λ (k : String × String). k.1) e))
    both (no p) q = no (λ e. p (ap (λ (k : String × String). k.0) e))

-- Keys of three texts.
unfoldable pub Triple-discrete : Discrete (String × String × String)
unfolding String-discrete
Triple-discrete (a, b, c) (x, y, z) =
    all (String-discrete a x) (String-discrete b y) (String-discrete c z)
  where
    all :
        Dec (a ≡ x)
        → Dec (b ≡ y)
        → Dec (c ≡ z)
        → Dec (◌≡◌ {A = String × String × String} (a, b, c) (x, y, z))
    all (yes p) (yes q) (yes r) = yes (λ i. (p i, q i, r i))
    all (yes p) (yes q) (no r) = no (λ e. r (ap (λ (t : String × String × String). t.2) e))
    all (yes p) (no q) r = no (λ e. q (ap (λ (t : String × String × String). t.1) e))
    all (no p) q r = no (λ e. p (ap (λ (t : String × String × String). t.0) e))

-- Two literals differ: `text_ne "a" "b" refl` where `String-discrete` unfolds.
pub text_ne : (s t : String) → (s =s t) ≡ false → s ≢ t
text_ne s t h e = ground arith
