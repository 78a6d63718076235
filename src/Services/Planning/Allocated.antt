-- ===== src/Services/Planning/Allocated.antt =====
-- What an allocation that succeeds has found and written.
use plan_it.Common.{
  ◌∷◌, ◌≡◌, arith, some, ok, false, inl, inr, Error, not, ℕ, Option, >>=-eq-ok, raise_if-eq-ok,
  is_some, or_raise, Bool-cases, any, ok-injective, or_raise-eq-ok, ap, subst, ◌∙◌, sym,
}
use plan_it.Common.Int.{ℤ, pos, ◌+ℤ◌, ◌≤ℤ◌, ltb_ℤ, eqb_ℤ}
use plan_it.Common.Text.{Text, text_eq}
use plan_it.Services.Planning.Goals.{
  allocate_goal, AllocateGoalCommand, check_allocation, is_archived_goal, funded_row, allocation_of,
  repeats_allocation,
}
use plan_it.Money.{require_non_negative, money, Money, scale, plus}
use plan_it.Store.Rows.{SavingsGoalModel}
use plan_it.Store.{Store, add_audit_event}
use plan_it.Store.Planning.{get_goal, goal_key}
use plan_it.Decimal.{finite, dec}
use plan_it.Store.Table.{put}
use plan_it.Ledger.Policies.{normalize_optional_text, TextField}
use plan_it.Money.Exact.{rescale_self}
use plan_it.Ledger.Reallocation.Sums.{plus-amount}

money-units :
    (units : ℤ) (currency : Text) {a : Money}
    → money (finite (dec units scale)) currency ≡ ok a
    → a.amount ≡ units
unfolding money
money-units units currency h = ground (arith, rescale_self units scale)

pub record IsAllocated (id user : ℕ) (command : AllocateGoalCommand) (s : Store) (t : Store)
    : Type 0 where
  pub goal : SavingsGoalModel
  pub updated : Money
  pub remark : Option Text
  pub owned : get_goal id user s ≡ some goal
  pub exact : updated.amount ≡ goal.manual_progress +ℤ command.amount.amount
  pub covered : pos 0 ≤ℤ updated.amount
  pub goals_after : t.goals ≡ put goal_key (funded_row goal updated) s.goals
  pub allocations_after : t.allocations ≡ allocation_of user goal command remark ∷ s.allocations

record IsAllowed (goal : SavingsGoalModel) (amount updated : Money) : Type 0 where
  sum : updated.amount ≡ goal.manual_progress +ℤ amount.amount
  positive : pos 0 ≤ℤ updated.amount

require_non_negative-eq-ok :
    (a : Money) (code : Error) {b : Money}
    → require_non_negative a code ≡ ok b
    → (pos 0 ≤ℤ a.amount) × (a ≡ b)
unfolding require_non_negative
require_non_negative-eq-ok a code h = elim (Bool-cases (ltb_ℤ a.amount (pos 0))) [
  | inl e ↦ let j = rw e at h in cc
  | inr e ↦ (not_negative_lem a.amount e, ok-injective (rw e at h))
]
  where
    not_negative_lem : (a : ℤ) → ltb_ℤ a (pos 0) ≡ false → pos 0 ≤ℤ a
    not_negative_lem a h = ground arith

check_allocation-IsAllowed :
    (user : ℕ) (goal : SavingsGoalModel) (amount : Money) {updated : Money}
    → check_allocation user goal amount ≡ ok updated
    → IsAllowed goal amount updated
unfolding check_allocation
check_allocation-IsAllowed user goal amount h =
    let (_, h₁) = raise_if-eq-ok (is_some goal.linked_account_id) _ _ h in
    let (_, h₂) = raise_if-eq-ok (is_archived_goal goal.status) _ _ h₁ in
    let (_, h₃) = raise_if-eq-ok (not (text_eq amount.currency goal.currency)) _ _ h₂ in
    let (_, h₄) = raise_if-eq-ok (eqb_ℤ amount.amount (pos 0)) _ _ h₃ in
    let (progress, read, h₅) =
      >>=-eq-ok (money (finite (dec goal.manual_progress scale)) goal.currency) _ h₄ in
    let (updated, added, h₆) = >>=-eq-ok (plus progress amount) _ h₅ in
    let (positive, same) = require_non_negative-eq-ok updated _ h₆ in
    let (exact, _, _) = plus-amount progress amount added in
    subst (λ (u : Money). IsAllowed goal amount u) same
      (record {
        sum =
            exact
            ∙ ap (λ a. a +ℤ amount.amount) (money-units goal.manual_progress goal.currency read);
        positive = positive;
      })

pub allocate_goal-IsAllocated :
    (user id : ℕ) (command : AllocateGoalCommand) (s : Store) {t : Store}
    → allocate_goal user id command s ≡ ok t
    → IsAllocated id user command s t
unfolding allocate_goal add_audit_event
allocate_goal-IsAllocated user id command s h =
    let (goal, found, h₁) = >>=-eq-ok (or_raise (get_goal id user s) Error.goal_not_found) _ h in
    let (updated, checked, h₂) = >>=-eq-ok (check_allocation user goal command.amount) _ h₁ in
    let (remark, _, h₃) =
      >>=-eq-ok (normalize_optional_text command.note TextField.other_text 500) _ h₂ in
    let (_, h₄) =
      raise_if-eq-ok
        (any (repeats_allocation (allocation_of user goal command remark)) s.allocations) _ _ h₃ in
    let allowed = check_allocation-IsAllowed user goal command.amount checked in
    record {
      goal = goal;
      updated = updated;
      remark = remark;
      owned = or_raise-eq-ok _ _ found;
      exact = allowed.sum;
      covered = allowed.positive;
      goals_after = ap (λ u. u.goals) (sym (ok-injective h₄));
      allocations_after = ap (λ u. u.allocations) (sym (ok-injective h₄));
    }
