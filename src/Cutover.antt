-- ===== src/Cutover.antt =====
-- memory_core/second_brain_cutover.py: the states of a migration cohort, the formula of a cutover
-- decision, and the gates. A gate raises an InvalidContractValue: here it is a Bool, true where it
-- lets pass. States outside the known ones are not representable.
pub mod Reachable
mod Examples
use wiki_spike.Base.{
  ℕ, String, Bool, true, false, not, ◌&&◌, ◌||◌, List, [], ◌∷◌, any, contains, leb, ltb, ◌==◌, ◌=s◌,
  if◌then◌else◌,
}

-- _COHORT_STATES
pub data CohortState : Type 0 where
  discovered importing quarantined_item reconciling ready_non_serving cutover_ready : CohortState
  route_switched_no_mutation canonical_mutated rollback_closed : CohortState
  rolled_back_reconcile decommissioned : CohortState

-- _ALLOWED_TRANSITIONS
unfoldable pub allowed_transitions : CohortState → List CohortState
allowed_transitions discovered = importing ∷ []
allowed_transitions importing = quarantined_item ∷ reconciling ∷ ready_non_serving ∷ []
allowed_transitions quarantined_item = importing ∷ reconciling ∷ []
allowed_transitions reconciling = importing ∷ ready_non_serving ∷ []
allowed_transitions ready_non_serving = cutover_ready ∷ []
allowed_transitions cutover_ready = route_switched_no_mutation ∷ []
allowed_transitions route_switched_no_mutation = canonical_mutated ∷ rolled_back_reconcile ∷ []
allowed_transitions canonical_mutated = rollback_closed ∷ []
allowed_transitions rollback_closed = decommissioned ∷ []
allowed_transitions rolled_back_reconcile = importing ∷ []
allowed_transitions decommissioned = []

abbrev pub number : CohortState → ℕ
number discovered = 0
number importing = 1
number quarantined_item = 2
number reconciling = 3
number ready_non_serving = 4
number cutover_ready = 5
number route_switched_no_mutation = 6
number canonical_mutated = 7
number rollback_closed = 8
number rolled_back_reconcile = 9
number decommissioned = 10

abbrev pub same_state : CohortState → CohortState → Bool
same_state a b = number a == number b

unfoldable pub assert_cohort_transition : CohortState → CohortState → Bool
unfolding allowed_transitions
assert_cohort_transition current nxt =
    any (λ (s : CohortState). same_state s nxt) (allowed_transitions current)

unfoldable pub assert_pre_mutation_rollback_allowed : CohortState → Bool
assert_pre_mutation_rollback_allowed state = same_state state route_switched_no_mutation

unfoldable pub assert_post_mutation_fail_closed : CohortState → String → Bool
assert_post_mutation_fail_closed state action = not (
    (same_state state canonical_mutated
      || same_state state rollback_closed
      || same_state state decommissioned)
    && action =s "external_rollback")

unfoldable pub assert_destructive_decommission_authorized : CohortState → ℕ → Bool → Bool → Bool
assert_destructive_decommission_authorized state retention_days evidence_backed approvals =
    if not (same_state state rollback_closed)
    then false
    else if ltb retention_days 90
    then false
    else if not evidence_backed
    then false
    else approvals

-- The fields of CutoverDecisionV1 that the PASS formula reads.
pub record Measurements : Type 0 where
  pub observation_days : ℕ
  pub parity_cases_per_source : ℕ
  pub cohort_e2e_queries : ℕ
  pub safety_violations : ℕ
  pub parity_bps_lower : ℕ
  pub citation_bps_lower : ℕ
  pub completeness_bps_lower : ℕ
  pub availability_bps_lower : ℕ
  pub parity_min_bps : ℕ
  pub citation_min_bps : ℕ
  pub completeness_min_bps : ℕ
  pub availability_min_bps : ℕ
  pub holdout_changed : Bool

unfoldable pub formula_pass : Measurements → Bool
formula_pass m =
    m.safety_violations == 0
    && leb 1 m.observation_days
    && leb 200 m.parity_cases_per_source
    && leb 500 m.cohort_e2e_queries
    && leb m.parity_min_bps m.parity_bps_lower
    && leb m.citation_min_bps m.citation_bps_lower
    && leb m.completeness_min_bps m.completeness_bps_lower
    && leb m.availability_min_bps m.availability_bps_lower
    && not m.holdout_changed
