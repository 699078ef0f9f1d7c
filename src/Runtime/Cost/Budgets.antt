-- ===== src/Runtime/Cost/Budgets.antt =====
-- No budget is ever exceeded, and what is spent is what was granted.
use wiki_spike.Base.{
  ℕ, ◌+◌, ◌≤◌, String, Bool, true, ◌≡◌, Option, none, List, [], ◌∷◌, arith, All, String-discrete,
  Key-discrete, holds, if◌then◌else◌, ◌=s◌,
}
use wiki_spike.Table.{find-put}
use wiki_spike.Runtime.Cost.{
  CostContext, CostTracker, Spent, spent_key, Refusal, source_key, operation_usage, source_usage,
  workspace_usage, spend, reserve,
}

module _ (c : CostContext) (amount : ℕ) (t : CostTracker) where
  spend-operation :
      (k : String)
      → operation_usage k (spend c amount t) ≡ (
          if holds (String-discrete c.operation_id k)
          then operation_usage k t + amount
          else operation_usage k t)
  unfolding operation_usage
  spend-operation k =
      let r : Spent String = record {
        spent_by = c.operation_id;
        micros = operation_usage c.operation_id t + amount;
      } in
      ground (arith, find-put String-discrete spent_key k r t.operation_spent)

  spend-source :
      (k : String × String)
      → source_usage k (spend c amount t) ≡ (
          if holds (Key-discrete (source_key c) k)
          then source_usage k t + amount
          else source_usage k t)
  unfolding source_usage
  spend-source k =
      let r : Spent (String × String) = record {
        spent_by = source_key c;
        micros = source_usage (source_key c) t + amount;
      } in
      ground (arith, find-put Key-discrete spent_key k r t.source_spent)

  spend-workspace :
      (k : String)
      → workspace_usage k (spend c amount t) ≡ (
          if holds (String-discrete c.workspace_id k)
          then workspace_usage k t + amount
          else workspace_usage k t)
  unfolding workspace_usage
  spend-workspace k =
      let r : Spent String = record {
        spent_by = c.workspace_id;
        micros = workspace_usage c.workspace_id t + amount;
      } in
      ground (arith, find-put String-discrete spent_key k r t.workspace_spent)

-- A reservation that was asked for.
pub record Ask : Type 0 where
  pub context : CostContext
  pub estimate : ℕ

unfoldable pub reserve_all : List Ask → CostTracker → CostTracker
reserve_all [] t = t
reserve_all (a ∷ asks) t = reserve_all asks (reserve a.context a.estimate t).1

-- Limits that hold for every context: the budgets of each are within them.
pub record Limits : Type 0 where
  pub of_operation : String → ℕ
  pub of_source : String × String → ℕ
  pub of_workspace : String → ℕ

pub record Respects (l : Limits) (a : Ask) : Type 0 where
  pub operation : a.context.max_operation_micros ≤ l.of_operation a.context.operation_id
  pub source : a.context.max_source_micros ≤ l.of_source (source_key a.context)
  pub workspace : a.context.max_workspace_micros ≤ l.of_workspace a.context.workspace_id

pub record IsWithin (l : Limits) (t : CostTracker) : Type 0 where
  pub operation : (k : String) → operation_usage k t ≤ l.of_operation k
  pub source : (k : String × String) → source_usage k t ≤ l.of_source k
  pub workspace : (k : String) → workspace_usage k t ≤ l.of_workspace k

reserve-IsWithin :
    (l : Limits) (a : Ask) (t : CostTracker)
    → Respects l a
    → IsWithin l t
    → IsWithin l (reserve a.context a.estimate t).1
unfolding reserve
reserve-IsWithin l a t respects within = record {
  operation = λ k.
      ground
        (arith, spend-operation a.context a.estimate t k, within.operation k, respects.operation);
  source =
      λ k. ground (arith, spend-source a.context a.estimate t k, within.source k, respects.source);
  workspace = λ k.
      ground
        (arith, spend-workspace a.context a.estimate t k, within.workspace k, respects.workspace);
}

-- Over any reservations, granted or refused, whose budgets are within some limits, what is spent by an
-- operation, a source or a workspace stays within the limits.
pub reserve_all-IsWithin :
    (l : Limits) (asks : List Ask) (t : CostTracker)
    → All (Respects l) asks
    → IsWithin l t
    → IsWithin l (reserve_all asks t)
unfolding reserve_all
reserve_all-IsWithin l [] t respects within = within
reserve_all-IsWithin l (a ∷ asks) t (r, rs) within =
    reserve_all-IsWithin l asks (reserve a.context a.estimate t).1 rs
      (reserve-IsWithin l a t r within)

-- What of the reservations is granted to a workspace.
abbrev granted : Option Refusal → Bool → ℕ → ℕ
granted none true amount = amount
granted _ _ amount = 0

unfoldable pub granted_to : String → List Ask → CostTracker → ℕ
granted_to w [] t = 0
granted_to w (a ∷ asks) t =
    let (refusal, t1) = reserve a.context a.estimate t in
    granted refusal (a.context.workspace_id =s w) a.estimate + granted_to w asks t1

reserve-usage :
    (w : String) (a : Ask) (t : CostTracker)
    → workspace_usage w (reserve a.context a.estimate t).1
      ≡ workspace_usage w t
        + granted (reserve a.context a.estimate t).0 (a.context.workspace_id =s w) a.estimate
unfolding reserve
reserve-usage w a t = ground (arith, spend-workspace a.context a.estimate t w)

-- What a workspace has spent after some reservations is what it had spent before and what they granted
-- to it.
pub reserve_all-usage :
    (w : String) (asks : List Ask) (t : CostTracker)
    → workspace_usage w (reserve_all asks t) ≡ workspace_usage w t + granted_to w asks t
unfolding reserve_all granted_to
reserve_all-usage w [] t = omega arith
reserve_all-usage w (a ∷ asks) t =
    let one = reserve-usage w a t in
    let rest = reserve_all-usage w asks (reserve a.context a.estimate t).1 in
    omega (arith, one, rest)

-- A source never has more than its workspace.
abbrev pub IsNested : CostTracker → Type 0
IsNested t = (w s : String) → source_usage (w, s) t ≤ workspace_usage w t

reserve-IsNested :
    (a : Ask) (t : CostTracker) → IsNested t → IsNested (reserve a.context a.estimate t).1
unfolding reserve
reserve-IsNested a t h w s = ground (
  arith,
  spend-source a.context a.estimate t (w, s),
  spend-workspace a.context a.estimate t w,
  h w s,
)

-- Over any reservations, what a source of a workspace has spent stays within what the workspace has.
pub reserve_all-IsNested :
    (asks : List Ask) (t : CostTracker) → IsNested t → IsNested (reserve_all asks t)
unfolding reserve_all
reserve_all-IsNested [] t h = h
reserve_all-IsNested (a ∷ asks) t h =
    reserve_all-IsNested asks (reserve a.context a.estimate t).1 (reserve-IsNested a t h)
