-- ===== src/Runtime/Degrade/Actions.antt =====
-- Which outage leads to which action.
use wiki_spike.Base.{String, Bool, true, false, ◌≡◌, ◌↔◌, ◌⊎◌, [], ◌∷◌, arith, All, contains}
use wiki_spike.Runtime.Degrade.{Availability, retry_later, abstain, unavailable, decide}

-- The component is named as unavailable.
abbrev pub IsDown : String → Availability → Type 0
IsDown name a = contains (unavailable a) name ≡ true

unavailable-none : (a : Availability) → (unavailable a ≡ []) ↔ All (λ x. x.1 ≡ true) a
unfolding unavailable
unavailable-none [] = ground arith
unavailable-none ((name, true) ∷ a) = ground (arith, unavailable-none a)
unavailable-none ((name, false) ∷ a) = ground arith

-- The decision is degraded exactly when some component is unavailable.
pub decide-degraded :
    (a : Availability) (requires_generation requires_layer_p : Bool)
    → ((decide a requires_generation requires_layer_p).degraded ≡ false) ↔ All (λ x. x.1 ≡ true) a
unfolding decide
decide-degraded a g p = ground (arith, unavailable-none a)

-- The caller is to retry later exactly when the core is unavailable, or the generation that it
-- requires; and is to abstain exactly when it need not retry and the verifier that it requires is
-- unavailable.
pub decide-action :
    (a : Availability) (g p : Bool)
    → (((decide a g p).action ≡ retry_later)
        ↔ (IsDown "core" a ⊎ (IsDown "generation" a × (g ≡ true))))
      × (((decide a g p).action ≡ abstain) ↔ (
          (¬ IsDown "core" a)
          × (¬ (IsDown "generation" a × (g ≡ true)))
          × IsDown "layer_p" a
          × (p ≡ true)))
unfolding decide
decide-action a g p = ground arith
