-- ===== src/Policy.antt =====
-- memory_core/policy.py: capabilities, provenance and sensitivity. Times are texts, compared as texts.
pub mod Decisions
mod Examples
use wiki_spike.Base.{
  ℕ, String, Bool, true, false, not, ◌&&◌, ◌||◌, List, [], ◌∷◌, select, contains, ltb, leb, ◌=s◌,
  if◌then◌else◌,
}
use wiki_spike.Base.TextOrder.{leb_text}

pub data Sensitivity : Type 0 where
  public internal private secret_data : Sensitivity

abbrev pub rank : Sensitivity → ℕ
rank public = 0
rank internal = 1
rank private = 2
rank secret_data = 3

pub data ProvenanceMode : Type 0 where
  evidence_backed self_authored system_inferred imported_unverified : ProvenanceMode

abbrev pub is_evidence_backed : ProvenanceMode → Bool
is_evidence_backed evidence_backed = true
is_evidence_backed _ = false

abbrev pub same_mode : ProvenanceMode → ProvenanceMode → Bool
same_mode evidence_backed evidence_backed = true
same_mode self_authored self_authored = true
same_mode system_inferred system_inferred = true
same_mode imported_unverified imported_unverified = true
same_mode _ _ = false

pub data PolicyReason : Type 0 where
  allow workspace_mismatch capability_missing capability_expired sensitivity_exceeded : PolicyReason
  provenance_promotion_denied declassification_denied invalid_request : PolicyReason

pub record CapabilityToken : Type 0 where
  pub token_id : String
  pub workspace_id : String
  pub actor_id : String
  pub actions : List String
  pub max_sensitivity : Sensitivity
  pub expires_at : String

pub record PolicyDecision : Type 0 where
  pub allowed : Bool
  pub reason : PolicyReason

pub record PolicyRequest : Type 0 where
  pub workspace_id : String
  pub actor_id : String
  pub action : String
  pub now : String
  pub object_sensitivity : Sensitivity

abbrev pub deny : PolicyReason → PolicyDecision
deny reason = record { allowed = false; reason = reason }

abbrev pub permit : PolicyDecision
permit = record { allowed = true; reason = allow }

unfoldable pub authorize : CapabilityToken → PolicyRequest → PolicyDecision
authorize token q =
    if not (token.workspace_id =s q.workspace_id) || not (token.actor_id =s q.actor_id)
    then deny workspace_mismatch
    else if leb_text token.expires_at q.now
    then deny capability_expired
    else if not (contains token.actions q.action)
    then deny capability_missing
    else if ltb (rank token.max_sensitivity) (rank q.object_sensitivity)
    then deny sensitivity_exceeded
    else permit

abbrev is_empty {ℓ} : {A : Type ℓ} → List A → Bool
is_empty [] = true
is_empty (x ∷ xs) = false

-- `tuple(ref for ref in evidence_refs if ref)`
abbrev pub named : List String → List String
named refs = select (λ r. not (r =s "")) refs

unfoldable pub authorize_provenance_transition :
    CapabilityToken → PolicyRequest → ProvenanceMode → ProvenanceMode → List String → PolicyDecision
unfolding authorize
authorize_provenance_transition token q source target refs =
    let base = authorize token q in
    if not base.allowed
    then base
    else if same_mode source target
    then permit
    else if is_evidence_backed target
        && (not (q.action =s "provenance.attest") || is_empty (named refs))
    then deny provenance_promotion_denied
    else permit

-- `is_blank` is the test `not reason.strip()`.
unfoldable pub authorize_declassification :
    (String → Bool)
    → CapabilityToken
    → PolicyRequest
    → Sensitivity
    → Sensitivity
    → String
    → PolicyDecision
unfolding authorize
authorize_declassification is_blank token q source target reason =
    let base = authorize token q in
    if not base.allowed
    then base
    else if leb (rank source) (rank target)
    then permit
    else if not (q.action =s "sensitivity.declassify") || is_blank reason
    then deny declassification_denied
    else permit

-- `max(values, key=rank)`: the first of the highest, and `public` where there is none
abbrev pub higher : Sensitivity → Sensitivity → Sensitivity
higher a b = if ltb (rank a) (rank b) then b else a

abbrev pub highest : Sensitivity → List Sensitivity → Sensitivity
highest best [] = best
highest best (x ∷ xs) = highest (higher best x) xs

unfoldable pub derived_sensitivity : List Sensitivity → Sensitivity
derived_sensitivity [] = public
derived_sensitivity (x ∷ xs) = highest x xs
