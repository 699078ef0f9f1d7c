-- ===== src/Generation/Framing.antt =====
-- A text for each JSON value, from which the value is read off: a hash without collisions, for examples.
use Prim.Native.Char.{Char, code}
use Prim.Native.String.{String, [], ◌∷◌}
use mathlib.Core.Path.{ap₂}
use package.text.Mathlib.TextLemmas.{cons-eq-cons}
use wiki_spike.Base.{◌≡◌, refl, ap, arith}
use wiki_spike.Json.{Json, Items, Members, null, text, array, object, end, item, empty, member}

unfoldable pub frame : String → String → String
frame [] rest = "0" ∷ rest
frame (c ∷ s) rest = "1" ∷ c ∷ frame s rest

unfoldable mutual
  unfolding frame

  pub frame_json : Json → String → String
  frame_json null rest = "n" ∷ rest
  frame_json (text s) rest = "t" ∷ frame s rest
  frame_json (array a) rest = "a" ∷ frame_items a rest
  frame_json (object m) rest = "o" ∷ frame_members m rest

  pub frame_items : Items → String → String
  frame_items end rest = "." ∷ rest
  frame_items (item v vs) rest = "," ∷ frame_json v (frame_items vs rest)

  pub frame_members : Members → String → String
  frame_members empty rest = "." ∷ rest
  frame_members (member k v ms) rest = "," ∷ frame k (frame_json v (frame_members ms rest))

tail_eq : {c d : Char} {s t : String} → c ∷ s ≡ d ∷ t → s ≡ t
tail_eq e = (cons-eq-cons.0 e).1

head_eq : {c d : Char} {s t : String} → c ∷ s ≡ d ∷ t → code c ≡ code d
head_eq e = ap code (cons-eq-cons.0 e).0

frame_inj : (s t x y : String) → frame s x ≡ frame t y → (s ≡ t) × (x ≡ y)
unfolding frame
frame_inj [] [] x y e = (refl, tail_eq e)
frame_inj [] (d ∷ t) x y e = absurd (omega (arith, head_eq e))
frame_inj (c ∷ s) [] x y e = absurd (omega (arith, head_eq e))
frame_inj (c ∷ s) (d ∷ t) x y e =
    let (same, rest) = frame_inj s t x y (tail_eq (tail_eq e)) in
    (ap₂ ◌∷◌ (cons-eq-cons.0 (tail_eq e)).0 same, rest)

mutual
  unfolding frame_json frame_items frame_members

  pub frame_json_inj :
      (v w : Json) (x y : String) → frame_json v x ≡ frame_json w y → (v ≡ w) × (x ≡ y)
  frame_json_inj null null x y e = (refl, tail_eq e)
  frame_json_inj null (text t) x y e = absurd (omega (arith, head_eq e))
  frame_json_inj null (array b) x y e = absurd (omega (arith, head_eq e))
  frame_json_inj null (object n) x y e = absurd (omega (arith, head_eq e))
  frame_json_inj (text s) null x y e = absurd (omega (arith, head_eq e))
  frame_json_inj (text s) (text t) x y e =
      let (same, rest) = frame_inj s t x y (tail_eq e) in (ap text same, rest)
  frame_json_inj (text s) (array b) x y e = absurd (omega (arith, head_eq e))
  frame_json_inj (text s) (object n) x y e = absurd (omega (arith, head_eq e))
  frame_json_inj (array a) null x y e = absurd (omega (arith, head_eq e))
  frame_json_inj (array a) (text t) x y e = absurd (omega (arith, head_eq e))
  frame_json_inj (array a) (array b) x y e =
      let (same, rest) = frame_items_inj a b x y (tail_eq e) in (ap array same, rest)
  frame_json_inj (array a) (object n) x y e = absurd (omega (arith, head_eq e))
  frame_json_inj (object m) null x y e = absurd (omega (arith, head_eq e))
  frame_json_inj (object m) (text t) x y e = absurd (omega (arith, head_eq e))
  frame_json_inj (object m) (array b) x y e = absurd (omega (arith, head_eq e))
  frame_json_inj (object m) (object n) x y e =
      let (same, rest) = frame_members_inj m n x y (tail_eq e) in (ap object same, rest)

  frame_items_inj :
      (v w : Items) (x y : String) → frame_items v x ≡ frame_items w y → (v ≡ w) × (x ≡ y)
  frame_items_inj end end x y e = (refl, tail_eq e)
  frame_items_inj end (item w ws) x y e = absurd (omega (arith, head_eq e))
  frame_items_inj (item v vs) end x y e = absurd (omega (arith, head_eq e))
  frame_items_inj (item v vs) (item w ws) x y e =
      let (same, rest) = frame_json_inj v w (frame_items vs x) (frame_items ws y) (tail_eq e) in
      let (same', rest') = frame_items_inj vs ws x y rest in (ap₂ item same same', rest')

  frame_members_inj :
      (v w : Members) (x y : String) → frame_members v x ≡ frame_members w y → (v ≡ w) × (x ≡ y)
  frame_members_inj empty empty x y e = (refl, tail_eq e)
  frame_members_inj empty (member k w ws) x y e = absurd (omega (arith, head_eq e))
  frame_members_inj (member k v vs) empty x y e = absurd (omega (arith, head_eq e))
  frame_members_inj (member k v vs) (member l w ws) x y e =
      let (keys, rest) =
        frame_inj k l (frame_json v (frame_members vs x)) (frame_json w (frame_members ws y))
          (tail_eq e) in
      let (same, rest') = frame_json_inj v w (frame_members vs x) (frame_members ws y) rest in
      let (same', rest'') = frame_members_inj vs ws x y rest' in
      (λ i. member (keys i) (same i) (same' i), rest'')
