-- ===== src/Cutover/Examples.antt =====
-- A cohort that is migrated, and the theorems of second_brain_cutover.py at it.
use wiki_spike.Base.{refl, List, [], ◌∷◌, In}
use wiki_spike.Cutover.{
  CohortState, importing, reconciling, ready_non_serving, cutover_ready, route_switched_no_mutation,
  canonical_mutated, assert_cohort_transition,
}
use wiki_spike.Cutover.Reachable.{mutation_needs_cutover}

abbrev migration : List CohortState
migration =
    importing ∷ reconciling ∷ ready_non_serving ∷ cutover_ready ∷ route_switched_no_mutation
    ∷ canonical_mutated ∷ []

mutation_needs_cutover_example :
    In cutover_ready migration × In route_switched_no_mutation migration
unfolding assert_cohort_transition
mutation_needs_cutover_example =
    mutation_needs_cutover migration (refl, (refl, (refl, (refl, (refl, (refl, tt)))))) refl
