-- ===== src/Runtime/Cost.antt =====
-- memory_runtime/cost.py: `CostTracker`, which reserves an estimate under four budgets.
pub mod Budgets
use wiki_spike.Base.{
  ℕ, ◌+◌, String, Bool, true, false, Option, none, some, List, [], ◌∷◌, ltb, String-discrete,
  Key-discrete, if◌then◌else◌,
}
use wiki_spike.Table.{find, put}

pub record CostContext : Type 0 where
  pub context_id : String
  pub operation_id : String
  pub workspace_id : String
  pub source_id : String
  pub max_call_micros : ℕ
  pub max_operation_micros : ℕ
  pub max_source_micros : ℕ
  pub max_workspace_micros : ℕ

-- An item of a dict of amounts.
pub record Spent (K : Type 0) : Type 0 where
  pub spent_by : K
  pub micros : ℕ

abbrev pub spent_key : {K : Type 0} → Spent K → K
spent_key x = x.spent_by

abbrev pub micros_of : {K : Type 0} → Option (Spent K) → ℕ
micros_of none = 0
micros_of (some x) = x.micros

pub record CostTracker : Type 0 where
  pub operation_spent : List (Spent String)
  pub source_spent : List (Spent (String × String))
  pub workspace_spent : List (Spent String)

abbrev pub empty_tracker : CostTracker
empty_tracker = record { operation_spent = []; source_spent = []; workspace_spent = [] }

pub data Refusal : Type 0 where
  invalid_estimate call_budget_exceeded operation_budget_exceeded : Refusal
  source_budget_exceeded workspace_budget_exceeded : Refusal

abbrev pub source_key : CostContext → String × String
source_key c = (c.workspace_id, c.source_id)

unfoldable pub operation_usage : String → CostTracker → ℕ
operation_usage k t = micros_of (find String-discrete spent_key k t.operation_spent)

unfoldable pub source_usage : String × String → CostTracker → ℕ
source_usage k t = micros_of (find Key-discrete spent_key k t.source_spent)

unfoldable pub workspace_usage : String → CostTracker → ℕ
workspace_usage k t = micros_of (find String-discrete spent_key k t.workspace_spent)

abbrev pub max_estimate : ℕ
max_estimate = 1000000000000000

-- The three writes of a reservation.
abbrev pub spend : CostContext → ℕ → CostTracker → CostTracker
spend c amount t = record {
  operation_spent =
      put String-discrete spent_key
        (record { spent_by = c.operation_id; micros = operation_usage c.operation_id t + amount })
        t.operation_spent;
  source_spent =
      put Key-discrete spent_key
        (record { spent_by = source_key c; micros = source_usage (source_key c) t + amount })
        t.source_spent;
  workspace_spent =
      put String-discrete spent_key
        (record { spent_by = c.workspace_id; micros = workspace_usage c.workspace_id t + amount })
        t.workspace_spent;
}

-- `none` where the reservation is made.
unfoldable pub reserve : CostContext → ℕ → CostTracker → Option Refusal × CostTracker
reserve c amount t =
    if ltb max_estimate amount
    then (some invalid_estimate, t)
    else if ltb c.max_call_micros amount
    then (some call_budget_exceeded, t)
    else if ltb c.max_operation_micros (operation_usage c.operation_id t + amount)
    then (some operation_budget_exceeded, t)
    else if ltb c.max_source_micros (source_usage (source_key c) t + amount)
    then (some source_budget_exceeded, t)
    else if ltb c.max_workspace_micros (workspace_usage c.workspace_id t + amount)
    then (some workspace_budget_exceeded, t)
    else (none, spend c amount t)
