-- ===== src/Policy/Decisions.antt =====
-- When a policy decision allows.
use wiki_spike.Base.{
  ◌≤◌, ◌<◌, String, Bool, true, false, ◌≡◌, ◌≢◌, refl, sym, ◌∙◌, ◌↔◌, ◌⊎◌, inl, inr, List, [], ◌∷◌,
  arith, In, All, contains,
}
use wiki_spike.Base.TextOrder.{leb_text}
use wiki_spike.Policy.{
  Sensitivity, rank, ProvenanceMode, evidence_backed, same_mode, CapabilityToken, PolicyRequest,
  named, authorize, authorize_provenance_transition, authorize_declassification,
  derived_sensitivity, highest, higher,
}

-- The token is of the workspace and the actor, not expired, and covers the action and the object.
pub record IsCovered (token : CapabilityToken) (q : PolicyRequest) : Type 0 where
  pub workspace : token.workspace_id ≡ q.workspace_id
  pub actor : token.actor_id ≡ q.actor_id
  pub live : leb_text token.expires_at q.now ≡ false
  pub action : contains token.actions q.action ≡ true
  pub sensitivity : rank q.object_sensitivity ≤ rank token.max_sensitivity

-- A request is allowed exactly when its token covers it.
pub authorize_iff :
    (token : CapabilityToken) (q : PolicyRequest)
    → ((authorize token q).allowed ≡ true) ↔ IsCovered token q
unfolding authorize
authorize_iff token q = ground arith

same_mode-eq : (a b : ProvenanceMode) → (same_mode a b ≡ true) ↔ (a ≡ b)
same_mode-eq a b = ground arith

-- A transition to evidence_backed from another mode is allowed exactly when the token covers it, the
-- action is provenance.attest, and a reference that is not empty is given.
pub promotion_iff :
    (token : CapabilityToken) (q : PolicyRequest) (source : ProvenanceMode) (refs : List String)
    → source ≢ evidence_backed
    → ((authorize_provenance_transition token q source evidence_backed refs).allowed ≡ true)
      ↔ (IsCovered token q × (q.action ≡ "provenance.attest") × (named refs ≢ []))
unfolding authorize_provenance_transition
promotion_iff token q source refs other =
    ground (arith, authorize_iff token q, same_mode-eq source evidence_backed)

-- The sensitivity of an object is lowered exactly when the token covers the request, the action is
-- sensitivity.declassify, and a reason is given.
pub declassification_iff :
    (is_blank : String → Bool) (token : CapabilityToken) (q : PolicyRequest)
    (source target : Sensitivity) (reason : String)
    → rank target < rank source
    → ((authorize_declassification is_blank token q source target reason).allowed ≡ true)
      ↔ (IsCovered token q × (q.action ≡ "sensitivity.declassify") × (is_blank reason ≡ false))
unfolding authorize_declassification
declassification_iff is_blank token q source target reason lower =
    ground (arith, authorize_iff token q)

higher-above : (a b : Sensitivity) → (rank a ≤ rank (higher a b)) × (rank b ≤ rank (higher a b))
higher-above a b = ground arith

highest-above :
    (best : Sensitivity) (xs : List Sensitivity)
    → (rank best ≤ rank (highest best xs)) × All (λ x. rank x ≤ rank (highest best xs)) xs
highest-above best [] = ground arith
highest-above best (x ∷ xs) =
    let (step, other) = higher-above best x in
    let (rest, all) = highest-above (higher best x) xs in
    (omega (arith, step, rest), (omega (arith, other, rest), all))

higher-In : (a b : Sensitivity) → (higher a b ≡ a) ⊎ (higher a b ≡ b)
higher-In a b = ground arith

highest-In :
    (best : Sensitivity) (xs : List Sensitivity)
    → (highest best xs ≡ best) ⊎ In (highest best xs) xs
highest-In best [] = inl refl
highest-In best (x ∷ xs) = elim (highest-In (higher best x) xs) [
  | inr m ↦ inr (inr m)
  | inl e ↦ elim (higher-In best x) [ inl f ↦ inl (e ∙ f) | inr f ↦ inr (inl (sym (e ∙ f))) ]
]

-- The sensitivity that is derived from some objects is that of one of them, and none is above it.
pub derived_sensitivity_bounds :
    (x : Sensitivity) (xs : List Sensitivity)
    → In (derived_sensitivity (x ∷ xs)) (x ∷ xs)
      × All (λ y. rank y ≤ rank (derived_sensitivity (x ∷ xs))) (x ∷ xs)
unfolding derived_sensitivity
derived_sensitivity_bounds x xs =
    (elim (highest-In x xs) [ inl e ↦ inl (sym e) | inr m ↦ inr m ], highest-above x xs)
