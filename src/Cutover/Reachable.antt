-- ===== src/Cutover/Reachable.antt =====
-- What the transitions of a cohort allow and forbid, over any number of steps.
use wiki_spike.Base.{
  ℕ, Bool, true, false, ◌≡◌, refl, ◌⊎◌, inl, inr, List, [], ◌∷◌, arith, In, Bool-cases,
}
use wiki_spike.Cutover.{
  CohortState, discovered, importing, quarantined_item, reconciling, ready_non_serving,
  cutover_ready, route_switched_no_mutation, canonical_mutated, rollback_closed, decommissioned,
  allowed_transitions, assert_cohort_transition, assert_pre_mutation_rollback_allowed,
  assert_post_mutation_fail_closed, assert_destructive_decommission_authorized,
}

-- A history of a cohort: its states, the first one first, each an allowed transition from the one before.
abbrev pub IsHistory : CohortState → List CohortState → Type 0
IsHistory s [] = Unit
IsHistory s (t ∷ ts) = (assert_cohort_transition s t ≡ true) × IsHistory t ts

abbrev pub last_state : CohortState → List CohortState → CohortState
last_state s [] = s
last_state s (t ∷ ts) = last_state t ts

-- The mutation of the canonical data is behind it.
abbrev pub is_mutated : CohortState → Bool
is_mutated canonical_mutated = true
is_mutated rollback_closed = true
is_mutated decommissioned = true
is_mutated _ = false

mutated_step :
    (s t : CohortState)
    → assert_cohort_transition s t ≡ true
    → is_mutated s ≡ true
    → is_mutated t ≡ true
unfolding assert_cohort_transition allowed_transitions
mutated_step s t h m = ground arith

-- Once the canonical data is mutated, a cohort stays so, and no rollback is let pass in any state that
-- it reaches.
pub mutated_stays :
    (s : CohortState) (ts : List CohortState)
    → is_mutated s ≡ true
    → IsHistory s ts
    → (assert_pre_mutation_rollback_allowed (last_state s ts) ≡ false)
      × (assert_post_mutation_fail_closed (last_state s ts) "external_rollback" ≡ false)
unfolding assert_pre_mutation_rollback_allowed assert_post_mutation_fail_closed
mutated_stays s [] m h = ground arith
mutated_stays s (t ∷ ts) m (step, h) = mutated_stays t ts (mutated_step s t step m) h

-- Before the route is switched.
abbrev is_before_switch : CohortState → Bool
is_before_switch discovered = true
is_before_switch importing = true
is_before_switch quarantined_item = true
is_before_switch reconciling = true
is_before_switch ready_non_serving = true
is_before_switch _ = false

before_step :
    (s t : CohortState)
    → assert_cohort_transition s t ≡ true
    → is_before_switch s ≡ true
    → (is_before_switch t ≡ true) ⊎ (t ≡ cutover_ready)
unfolding assert_cohort_transition allowed_transitions
before_step s t h m = ground arith

mutated_after_ready :
    (s : CohortState) (ts : List CohortState)
    → is_before_switch s ≡ true
    → IsHistory s ts
    → is_mutated (last_state s ts) ≡ true
    → In cutover_ready ts
mutated_after_ready s [] b h m = absurd (ground arith)
mutated_after_ready s (t ∷ ts) b (step, h) m = elim (before_step s t step b) [
  | inr ready ↦ inl ready
  | inl still ↦ inr (mutated_after_ready t ts still h m)
]

switched_before :
    (s t : CohortState)
    → assert_cohort_transition s t ≡ true
    → is_mutated t ≡ true
    → (is_mutated s ≡ true) ⊎ (s ≡ route_switched_no_mutation)
unfolding assert_cohort_transition allowed_transitions
switched_before s t h m = ground arith

mutated_after_switch :
    (s : CohortState) (ts : List CohortState)
    → is_mutated s ≡ false
    → IsHistory s ts
    → is_mutated (last_state s ts) ≡ true
    → In route_switched_no_mutation (s ∷ ts)
mutated_after_switch s [] b h m = absurd (ground arith)
mutated_after_switch s (t ∷ ts) b (step, h) m = elim (Bool-cases (is_mutated t)) [
  | inl now ↦ elim (switched_before s t step now) [ inl e ↦ absurd (ground arith) | inr e ↦ inl e ]
  | inr still ↦ inr (mutated_after_switch t ts still h m)
]

-- A cohort that starts as discovered and reaches a state behind the mutation of the canonical data has
-- been CUTOVER_READY and ROUTE_SWITCHED_NO_MUTATION on the way.
pub mutation_needs_cutover :
    (ts : List CohortState)
    → IsHistory discovered ts
    → is_mutated (last_state discovered ts) ≡ true
    → In cutover_ready ts × In route_switched_no_mutation ts
mutation_needs_cutover ts h m = (
  mutated_after_ready discovered ts refl h m,
  elim (mutated_after_switch discovered ts refl h m) [ inl e ↦ absurd (ground arith) | inr i ↦ i ],
)

-- A decommission that is authorised is a transition that is allowed, and the last one: nothing leads
-- out of it.
pub decommission_last :
    (s next : CohortState) (days : ℕ) (backed approved : Bool)
    → assert_destructive_decommission_authorized s days backed approved ≡ true
    → (assert_cohort_transition s decommissioned ≡ true)
      × (assert_cohort_transition decommissioned next ≡ false)
unfolding assert_destructive_decommission_authorized assert_cohort_transition allowed_transitions
decommission_last s next days backed approved h = (ground arith, refl)
