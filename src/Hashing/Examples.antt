-- ===== src/Hashing/Examples.antt =====
-- Trees over a hash that frames its text, and the theorems of hashing.py at them.
use Prim.Native.String.{String, ◌++◌ as append_text}
use Prim.Native.Char.{code}
use mathlib.Core.Path.{ap₂}
use text.Mathlib.TextLemmas.{cons-eq-cons, cons-append}
use mathlib.Core.List.Perm
use wiki_spike.Base.{◌≡◌, refl, sym, ap, ◌∙◌, some, [], ◌∷◌, arith, In, ◌↔◌}
use wiki_spike.Hashing.{Sha, merkle_root}
use wiki_spike.Hashing.Root.{
  IsCollisionFree, merkle_root_total, merkle_root_perm, merkle_root_binds,
}

frame : String → String
frame String.[] = "0"
frame (String.◌∷◌ c s) = String.◌∷◌ "1" (String.◌∷◌ c (frame s))

frame_prefix : (s t x y : String) → append_text (frame s) x ≡ append_text (frame t) y → s ≡ t
unfolding frame
frame_prefix String.[] String.[] x y e = refl
frame_prefix String.[] (String.◌∷◌ d t) x y e =
    let heads =
      cons-eq-cons.0
        (sym (cons-append "0" "" x) ∙ e ∙ cons-append "1" (String.◌∷◌ d (frame t)) y) in
    absurd (omega (arith, ap code heads.0))
frame_prefix (String.◌∷◌ c s) String.[] x y e =
    let heads =
      cons-eq-cons.0
        (sym (cons-append "1" (String.◌∷◌ c (frame s)) x) ∙ e ∙ cons-append "0" "" y) in
    absurd (omega (arith, ap code heads.0))
frame_prefix (String.◌∷◌ c s) (String.◌∷◌ d t) x y e =
    let marks = cons-eq-cons.0 (
      sym (cons-append "1" (String.◌∷◌ c (frame s)) x)
      ∙ e
      ∙ cons-append "1" (String.◌∷◌ d (frame t)) y) in
    let (heads, tails) =
      cons-eq-cons.0 (sym (cons-append c (frame s) x) ∙ marks.1 ∙ cons-append d (frame t) y) in
    ap₂ String.◌∷◌ heads (frame_prefix s t x y tails)

frame_inj : (s t : String) → frame s ≡ frame t → s ≡ t
frame_inj s t e = frame_prefix s t "" "" (ap (λ (l : String). append_text l "") e)

abbrev framing : Sha
framing = record { digest = frame; hex = λ d. d }

framing-IsCollisionFree : IsCollisionFree framing
framing-IsCollisionFree = record {
  digest_inj = frame_inj;
  digest_prefix = λ s t x y e. ap frame (frame_prefix s t x y e);
  hex_inj = λ s t e. e;
}

merkle_root_total_example :
    (root : String) × (merkle_root framing ("a" ∷ "b" ∷ "c" ∷ []) ≡ some root)
merkle_root_total_example = merkle_root_total framing ("a" ∷ "b" ∷ "c" ∷ [])

abbrev leaf : String
leaf = "a"

merkle_root_binds_example : In leaf (leaf ∷ "b" ∷ []) ↔ In leaf ("b" ∷ leaf ∷ [])
merkle_root_binds_example =
    merkle_root_binds framing framing-IsCollisionFree ("a" ∷ "b" ∷ []) ("b" ∷ "a" ∷ []) refl
      (merkle_root_perm framing _ _ (Perm.swap "b" "a" [])) "a"
