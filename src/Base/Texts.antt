-- ===== src/Base/Texts.antt =====
-- Texts character by character, where proofs go through them.
use Prim.Native.Char.{code}
use Prim.Native.Nat.{ℕ, zero, suc}
use Prim.Native.String.{String, [], ◌∷◌}
use mathlib.Core.Bool.{Bool, true, false, ◌&&◌}
use wiki_spike.Base.Tests.{◌==◌}

abbrev pub append : String → String → String
append [] t = t
append (c ∷ s) t = c ∷ append s t

-- `t.startswith(s)`
abbrev pub starts_with : String → String → Bool
starts_with [] t = true
starts_with (c ∷ s) [] = false
starts_with (c ∷ s) (d ∷ t) = code c == code d && starts_with s t

-- `t[:n]`
abbrev pub take : ℕ → String → String
take zero t = []
take (suc n) [] = []
take (suc n) (c ∷ t) = c ∷ take n t

-- `not t`
abbrev pub is_empty : String → Bool
is_empty [] = true
is_empty (c ∷ s) = false
