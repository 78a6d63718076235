-- ===== src/Services/Planning/Progress.antt =====
-- Calls on goals keep their progress in step with their allocations.
use plan_it.Common.{
  ◌∷◌, ◌≡◌, arith, refl, some, none, false, inl, inr, ℕ, List, ◌==◌, subst, sym, Bool-cases, ==_iff,
  ◌∙◌, ap,
}
use plan_it.Common.Int.{ℤ, ◌+ℤ◌, zero-+ℤ, pos, ◌≤ℤ◌, +ℤ_comm}
use plan_it.Store.Table.{find, put, find-put}
use plan_it.Store.Rows.{SavingsGoalModel, GoalAllocationModel}
use plan_it.Store.Planning.{allocated, goal_key}
use plan_it.Store.{Store}
use plan_it.Services.Planning.Funded.{
  GoalCall, GoalCalls, FundedAt, IsFunded, Funded, create_goal-IsCreated, update_goal-IsUpdated,
  get_goal-find,
}
use plan_it.Services.Planning.Allocated.{allocate_goal-IsAllocated}
use plan_it.Services.Planning.Goals.{funded_row, allocation_of}

found_at :
    (k : ℕ) (goals : List SavingsGoalModel) (total : ℤ) {g : SavingsGoalModel}
    → find goal_key k goals ≡ some g
    → Funded total (find goal_key k goals)
    → Funded total (some g)
found_at k goals total held known = subst (Funded total) held known

FundedAt-new :
    (k : ℕ) (g : SavingsGoalModel) (goals : List SavingsGoalModel)
    (allocations : List GoalAllocationModel)
    → find goal_key g.id goals ≡ none
    → g.manual_progress ≡ pos 0
    → FundedAt k goals allocations
    → FundedAt k (g ∷ goals) allocations
unfolding find
FundedAt-new k g goals allocations unused empty known = elim (Bool-cases (g.id == k)) [
  | inl e ↦
      let same : g.id ≡ k = (==_iff _ _).0 e in
      let free : find goal_key k goals ≡ none =
        subst (λ j. find goal_key j goals ≡ none) same unused in
      let none_left : allocated k allocations ≡ pos 0 =
        subst (Funded (allocated k allocations)) free known in
      rw e (empty ∙ sym none_left, subst (λ a. pos 0 ≤ℤ a) (sym empty) (omega arith))
  | inr d ↦ rw d known
]

FundedAt-kept :
    (k : ℕ) (g row : SavingsGoalModel) (goals : List SavingsGoalModel)
    (allocations : List GoalAllocationModel)
    → find goal_key g.id goals ≡ some g
    → row.id ≡ g.id
    → row.manual_progress ≡ g.manual_progress
    → FundedAt k goals allocations
    → FundedAt k (put goal_key row goals) allocations
FundedAt-kept k g row goals allocations held same kept known =
    subst (Funded (allocated k allocations)) (sym (find-put goal_key row goals k))
      (elim (Bool-cases (row.id == k)) [
        | inl e ↦
            let place : g.id ≡ k = sym same ∙ (==_iff _ _).0 e in
            let own : find goal_key k goals ≡ some g =
              subst (λ j. find goal_key j goals ≡ some g) place held in
            let (total, covered) = found_at k goals (allocated k allocations) own known in
            rw e (kept ∙ total, subst (λ a. pos 0 ≤ℤ a) (sym kept) covered)
        | inr d ↦ rw d known
      ])

allocated-own :
    (k : ℕ) (a : GoalAllocationModel) (rest : List GoalAllocationModel)
    → a.goal_id ≡ k
    → allocated k (a ∷ rest) ≡ a.amount +ℤ allocated k rest
unfolding allocated
allocated-own k a rest e = ground arith

allocated-other :
    (k : ℕ) (a : GoalAllocationModel) (rest : List GoalAllocationModel)
    → (a.goal_id == k) ≡ false
    → allocated k (a ∷ rest) ≡ allocated k rest
unfolding allocated
allocated-other k a rest e = rw e (zero-+ℤ (allocated k rest))

FundedAt-allocated :
    (k : ℕ) (g row : SavingsGoalModel) (a : GoalAllocationModel) (goals : List SavingsGoalModel)
    (allocations : List GoalAllocationModel)
    → find goal_key g.id goals ≡ some g
    → row.id ≡ g.id
    → a.goal_id ≡ g.id
    → row.manual_progress ≡ g.manual_progress +ℤ a.amount
    → pos 0 ≤ℤ row.manual_progress
    → FundedAt k goals allocations
    → FundedAt k (put goal_key row goals) (a ∷ allocations)
FundedAt-allocated k g row a goals allocations held same named exact covered known =
    subst (Funded (allocated k (a ∷ allocations))) (sym (find-put goal_key row goals k))
      (elim (Bool-cases (row.id == k)) [
        | inl e ↦
            let place : g.id ≡ k = sym same ∙ (==_iff _ _).0 e in
            let own : find goal_key k goals ≡ some g =
              subst (λ j. find goal_key j goals ≡ some g) place held in
            let (total, _) = found_at k goals (allocated k allocations) own known in
            rw e (
              exact
                  ∙ (ap (λ t. t +ℤ a.amount) total
                      ∙ (+ℤ_comm (allocated k allocations) a.amount
                          ∙ sym (allocated-own k a allocations (named ∙ place)))),
              covered,
            )
        | inr d ↦
            let apart : (a.goal_id == k) ≡ false = ap (λ j. j == k) (named ∙ sym same) ∙ d in
            rw d (
              subst (λ t. Funded t (find goal_key k goals))
                (sym (allocated-other k a allocations apart)) known)
      ])

FundedAt-moved :
    (k : ℕ) (t : Store) {goals : List SavingsGoalModel} {allocations : List GoalAllocationModel}
    → t.goals ≡ goals
    → t.allocations ≡ allocations
    → FundedAt k goals allocations
    → FundedAt k t.goals t.allocations
FundedAt-moved k t {goals} {allocations} e f known =
    subst (λ g. FundedAt k g t.allocations) (sym e) (subst (λ a. FundedAt k goals a) (sym f) known)

GoalCall-IsFunded : {s t : Store} → GoalCall s t → IsFunded s → IsFunded t
GoalCall-IsFunded {s} {t} (GoalCall.creates user command operation h) known k =
    let c = create_goal-IsCreated user command operation s h in
    FundedAt-moved k t c.goals_after c.allocations_after
      (FundedAt-new k c.goal s.goals s.allocations c.unused c.empty (known k))
GoalCall-IsFunded {s} {t} (GoalCall.updates user id command operation h) known k =
    let u = update_goal-IsUpdated user id command operation s h in
    let (held, place) = get_goal-find id user s u.owned in
    let own = subst (λ j. find goal_key j s.goals ≡ some u.goal) (sym place) held in
    FundedAt-moved k t u.goals_after u.allocations_after
      (FundedAt-kept k u.goal u.row s.goals s.allocations own u.same u.kept (known k))
GoalCall-IsFunded {s} {t} (GoalCall.allocates user id command h) known k =
    let a = allocate_goal-IsAllocated user id command s h in
    let (held, place) = get_goal-find id user s a.owned in
    let own = subst (λ j. find goal_key j s.goals ≡ some a.goal) (sym place) held in
    FundedAt-moved k t a.goals_after a.allocations_after (
      FundedAt-allocated k a.goal (funded_row a.goal a.updated)
        (allocation_of user a.goal command a.remark) s.goals s.allocations own refl refl a.exact
        a.covered (known k))

-- Every sequence of calls on goals, of any users, keeps the progress of each goal the sum of its
-- allocations and not negative.
pub GoalCalls-IsFunded : {s t : Store} → GoalCalls s t → IsFunded s → IsFunded t
GoalCalls-IsFunded GoalCalls.start known = known
GoalCalls-IsFunded (GoalCalls.next earlier last) known =
    GoalCall-IsFunded last (GoalCalls-IsFunded earlier known)
