-- ===== src/Store/Planning.antt =====
-- `PlanningRepository` (backend/app/infrastructure/repositories/planning.py).
use plan_it.Common.{
  if◌then◌else◌, ◌∷◌, some, none, [], true, false, ℕ, filter, List, take, Bool, Option, ◌==◌, ◌||◌,
  ◌&&◌, leb,
}
use plan_it.Common.Time.{Instant}
use plan_it.Common.Int.{ℤ, pos, ltb_ℤ, ◌+ℤ◌, eqb_ℤ, leb_ℤ}
use plan_it.Planning.{RecurringStatus}
use plan_it.Store.Rows.{
  GoalAllocationModel, RecurringRuleModel, RecurringOccurrenceModel, SavingsGoalModel,
}
use plan_it.Store.{Store}
use plan_it.Store.Table.{find}

abbrev pub rule_key : RecurringRuleModel → ℕ
rule_key r = r.id

abbrev pub occurrence_key : RecurringOccurrenceModel → ℕ
occurrence_key o = o.id

abbrev pub goal_key : SavingsGoalModel → ℕ
goal_key g = g.id

abbrev pub allocation_key : GoalAllocationModel → ℕ
allocation_key a = a.id

unfoldable pub get_rule : ℕ → ℕ → Store → Option RecurringRuleModel
get_rule id user s = elim (find rule_key id s.rules) [
  | none ↦ none
  | some r ↦ if r.user_id == user then some r else none
]

unfoldable pub get_occurrence : ℕ → ℕ → Store → Option RecurringOccurrenceModel
get_occurrence id user s = elim (find occurrence_key id s.occurrences) [
  | none ↦ none
  | some o ↦ if o.user_id == user then some o else none
]

unfoldable pub get_goal : ℕ → ℕ → Store → Option SavingsGoalModel
get_goal id user s = elim (find goal_key id s.goals) [
  | none ↦ none
  | some g ↦ if g.user_id == user then some g else none
]

abbrev pub is_scheduled : ℕ → Instant → RecurringOccurrenceModel → Bool
is_scheduled rule at o = o.rule_id == rule && eqb_ℤ o.scheduled_for at

-- `occurrence_for`.
unfoldable pub occurrence_for : ℕ → Instant → List RecurringOccurrenceModel → Bool
occurrence_for rule at [] = false
occurrence_for rule at (o ∷ os) = is_scheduled rule at o || occurrence_for rule at os

abbrev is_active_rule : RecurringStatus → Bool
is_active_rule RecurringStatus.active_rule = true
is_active_rule _ = false

abbrev pub is_due : ℕ → Instant → RecurringRuleModel → Bool
is_due user at r = r.user_id == user && (is_active_rule r.status && leb_ℤ r.next_due_at at)

-- `ORDER BY next_due_at, id`.
abbrev pub is_before : RecurringRuleModel → RecurringRuleModel → Bool
is_before a b =
    ltb_ℤ a.next_due_at b.next_due_at || (eqb_ℤ a.next_due_at b.next_due_at && leb a.id b.id)

unfoldable pub insert_rule : RecurringRuleModel → List RecurringRuleModel → List RecurringRuleModel
insert_rule r [] = r ∷ []
insert_rule r (q ∷ qs) =
    let rest = insert_rule r qs in if is_before r q then r ∷ (q ∷ qs) else q ∷ rest

unfoldable pub sort_rules : List RecurringRuleModel → List RecurringRuleModel
unfolding insert_rule
sort_rules [] = []
sort_rules (r ∷ rs) = insert_rule r (sort_rules rs)

unfoldable pub due_rules : ℕ → Instant → ℕ → List RecurringRuleModel → List RecurringRuleModel
unfolding filter sort_rules
due_rules user at limit rs = take limit (sort_rules (filter (is_due user at) rs))

-- The allocations of a goal.
unfoldable pub allocated : ℕ → List GoalAllocationModel → ℤ
allocated goal [] = pos 0
allocated goal (a ∷ rest) = (if a.goal_id == goal then a.amount else pos 0) +ℤ allocated goal rest
