-- ===== src/Base/TextOrder.antt =====
-- Python's order of texts: by code points, character by character. It is a linear order.
use Prim.Native.Char.{code}
use Prim.Native.String.{String, [], ◌∷◌}
use mathlib.Core.Bool.{Bool, true, false, not, ◌&&◌, ◌||◌}
use mathlib.Core.Logic.{◌⊎◌}
use mathlib.Core.Path.{◌≡◌, refl, ap₂}
use native.Mathlib.Omega.{arith}
use text.Mathlib.TextEquality.{Char-path}
use wiki_spike.Base.Tests.{ltb, ◌==◌}

-- `s <= t`
unfoldable pub leb_text : String → String → Bool
leb_text [] t = true
leb_text (c ∷ s) [] = false
leb_text (c ∷ s) (d ∷ t) = ltb (code c) (code d) || (code c == code d && leb_text s t)

-- `s < t`
abbrev pub ltb_text : String → String → Bool
ltb_text s t = not (leb_text t s)

pub leb_text_refl : (s : String) → leb_text s s ≡ true
unfolding leb_text
leb_text_refl [] = refl
leb_text_refl (c ∷ s) = ground (arith, leb_text_refl s)

pub leb_text_total : (s t : String) → (leb_text s t ≡ true) ⊎ (leb_text t s ≡ true)
unfolding leb_text
leb_text_total [] t = ground arith
leb_text_total (c ∷ s) [] = ground arith
leb_text_total (c ∷ s) (d ∷ t) = ground (arith, leb_text_total s t)

pub leb_text_trans :
    (s t u : String) → leb_text s t ≡ true → leb_text t u ≡ true → leb_text s u ≡ true
unfolding leb_text
leb_text_trans [] t u p q = refl
leb_text_trans (c ∷ s) [] u p q = ground arith
leb_text_trans (c ∷ s) (d ∷ t) [] p q = ground arith
leb_text_trans (c ∷ s) (d ∷ t) (e ∷ u) p q = ground (arith, leb_text_trans s t u)

pub leb_text_antisymm : (s t : String) → leb_text s t ≡ true → leb_text t s ≡ true → s ≡ t
unfolding leb_text
leb_text_antisymm [] [] p q = refl
leb_text_antisymm [] (d ∷ t) p q = ground arith
leb_text_antisymm (c ∷ s) [] p q = ground arith
leb_text_antisymm (c ∷ s) (d ∷ t) p q =
    ap₂ ◌∷◌ (Char-path c d (ground arith)) (leb_text_antisymm s t (ground arith) (ground arith))

leb_text_by_code_points : leb_text "Zeta" "alpha" && not (leb_text "b" "ab") ≡ true
unfolding leb_text
leb_text_by_code_points = refl
