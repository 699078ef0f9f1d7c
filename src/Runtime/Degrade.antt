-- ===== src/Runtime/Degrade.antt =====
-- memory_runtime/degrade.py: what to do while components are unavailable.
pub mod Actions
use wiki_spike.Base.{
  String, Bool, true, false, not, ◌&&◌, ◌||◌, List, [], ◌∷◌, map, select, contains, if◌then◌else◌,
}
use wiki_spike.Base.Sorting.{sorted}

pub data DegradeAction : Type 0 where
  continue_exact use_last_known_good abstain retry_later : DegradeAction

pub record DegradeDecision : Type 0 where
  pub unavailable_components : List String
  pub action : DegradeAction
  pub degraded : Bool
  pub reason_codes : List String

-- A mapping is the list of its items.
abbrev pub Availability : Type 0
Availability = List (String × Bool)

unfoldable pub unavailable : Availability → List String
unavailable a = map (λ (x : String × Bool). x.0) (select (λ (x : String × Bool). not x.1) a)

abbrev decision : List String → DegradeAction → String → DegradeDecision
decision components action reason = record {
  unavailable_components = sorted components;
  action = action;
  degraded = true;
  reason_codes = reason ∷ [];
}

abbrev choose : List String → Bool → Bool → DegradeDecision
choose [] requires_generation requires_layer_p = record {
  unavailable_components = [];
  action = continue_exact;
  degraded = false;
  reason_codes = [];
}
choose (x ∷ xs) requires_generation requires_layer_p =
    let down = x ∷ xs in
    if contains down "core" || (contains down "generation" && requires_generation)
    then decision down retry_later "authoritative_dependency_unavailable"
    else if contains down "layer_p" && requires_layer_p
    then decision down abstain "required_verifier_unavailable"
    else if contains down "vector" || contains down "model"
    then decision down continue_exact "optional_component_unavailable"
    else decision down use_last_known_good "fallback_selected"

unfoldable pub decide : Availability → Bool → Bool → DegradeDecision
unfolding unavailable
decide a requires_generation requires_layer_p =
    choose (unavailable a) requires_generation requires_layer_p
