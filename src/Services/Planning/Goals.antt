-- ===== src/Services/Planning/Goals.antt =====
-- `create_goal_in_transaction`, `update_goal_in_transaction` and `allocate_goal_in_transaction`.
use plan_it.Common.{
  if◌then◌else◌, ◌>>◌, ◌>>=◌, ◌∷◌, ◌+◌, some, none, ok, err, true, false, Error, Result, not, ℕ,
  Option, Bool, ◌==◌, raise_if, is_some, or_raise, ◌||◌, ◌&&◌, any,
}
use plan_it.Common.Text.{Text, text_eq}
use plan_it.Common.Int.{ℤ, ltb_ℤ, eqb_ℤ, pos}
use plan_it.Services.Planning.Rules.{require_planning_account, given_name}
use plan_it.Money.{Money, require_positive, money, plus, require_non_negative, scale}
use plan_it.Store.Planning.{get_goal, goal_key}
use plan_it.Store.Rows.{GoalAllocationModel, SavingsGoalModel}
use plan_it.Planning.{GoalStatus, normalize_planning_name}
use plan_it.Store.{Store, add_audit_event, AuditAction}
use plan_it.Ledger.Policies.{normalize_optional_text, TextField}
use plan_it.Services.Transactions.Checks.{require_version}
use plan_it.Store.Table.{find, put}
use plan_it.Services.Transactions.Drafts.{given}
use plan_it.Decimal.{finite, dec}

pub record CreateGoalCommand : Type 0 where
  pub id : ℕ
  pub name : Text
  pub target_amount : Money
  pub target_date : Option ℕ
  pub linked_account_id : Option ℕ

-- `values`: a key that is absent is `none`; a `target_amount` that is no amount is `some none`.
pub record UpdateGoalCommand : Type 0 where
  pub version : ℕ
  pub name : Option Text
  pub target_date : Option (Option ℕ)
  pub target_amount : Option (Option Money)
  pub status : Option GoalStatus

pub record AllocateGoalCommand : Type 0 where
  pub id : ℕ
  pub client_operation_id : ℕ
  pub amount : Money
  pub note : Option Text

abbrev pub is_archived_goal : GoalStatus → Bool
is_archived_goal GoalStatus.archived_goal = true
is_archived_goal _ = false

-- The constraints that a new allocation can violate.
abbrev pub repeats_allocation : GoalAllocationModel → GoalAllocationModel → Bool
repeats_allocation a b =
    a.id == b.id || (a.user_id == b.user_id && a.client_operation_id == b.client_operation_id)

abbrev pub status_of_progress : ℤ → ℤ → GoalStatus
status_of_progress progress target =
    if ltb_ℤ progress target then GoalStatus.active_goal else GoalStatus.completed

abbrev pub allocation_of :
    ℕ → SavingsGoalModel → AllocateGoalCommand → Option Text → GoalAllocationModel
allocation_of user goal command remark = record {
  id = command.id;
  user_id = user;
  goal_id = goal.id;
  amount = command.amount.amount;
  currency = command.amount.currency;
  note = remark;
  client_operation_id = command.client_operation_id;
}

abbrev pub funded_row : SavingsGoalModel → Money → SavingsGoalModel
funded_row goal updated = record goal {
  manual_progress = updated.amount;
  status = status_of_progress updated.amount goal.target_amount;
  version = goal.version + 1;
}

module _ (user : ℕ) where
  unfoldable pub require_linked_account : Option ℕ → Money → Store → Result (Unit {0})
  unfolding require_planning_account
  require_linked_account none target s = ok tt
  require_linked_account (some id) target s = require_planning_account user id target s

  unfoldable pub create_goal : CreateGoalCommand → ℕ → Store → Result Store
  unfolding require_positive require_linked_account normalize_planning_name add_audit_event
  create_goal command operation s = do
    require_positive command.target_amount Error.invalid_goal_target
    require_linked_account command.linked_account_id command.target_amount s
    name ← normalize_planning_name command.name
    raise_if (is_some (find goal_key command.id s.goals)) Error.goal_conflict
    let model : SavingsGoalModel = record {
      id = command.id;
      user_id = user;
      name = name;
      target_amount = command.target_amount.amount;
      currency = command.target_amount.currency;
      target_date = command.target_date;
      linked_account_id = command.linked_account_id;
      manual_progress = pos 0;
      status = GoalStatus.active_goal;
      version = 1;
    }
    ok (
        add_audit_event user AuditAction.create_goal_event command.id operation
          (record s { goals = model ∷ s.goals }))

  unfoldable pub given_target : Option (Option Money) → SavingsGoalModel → Result ℤ
  unfolding require_positive
  given_target none model = ok model.target_amount
  given_target (some none) model = err Error.invalid_goal_target
  given_target (some (some target)) model = do
    require_positive target Error.invalid_goal_target
    raise_if (not (text_eq target.currency model.currency)) Error.currency_mismatch
    ok target.amount

  unfoldable pub update_goal : ℕ → UpdateGoalCommand → ℕ → Store → Result Store
  unfolding get_goal given_name given_target add_audit_event
  update_goal id command operation s = do
    model ← or_raise (get_goal id user s) Error.goal_not_found
    require_version model.version command.version
    name ← given_name command.name model.name
    target ← given_target command.target_amount model
    let row = record model {
      name = name;
      target_date = given command.target_date model.target_date;
      target_amount = target;
      status = given command.status model.status;
      version = model.version + 1;
    }
    ok (
        add_audit_event user AuditAction.update_goal_event model.id operation
          (record s { goals = put goal_key row s.goals }))

  -- The checks of an allocation, with the progress after it.
  unfoldable pub check_allocation : SavingsGoalModel → Money → Result Money
  unfolding money plus require_non_negative
  check_allocation goal amount = do
    raise_if (is_some goal.linked_account_id) Error.linked_goal_allocation
    raise_if (is_archived_goal goal.status) Error.goal_archived
    raise_if (not (text_eq amount.currency goal.currency)) Error.currency_mismatch
    raise_if (eqb_ℤ amount.amount (pos 0)) Error.zero_allocation
    progress ← money (finite (dec goal.manual_progress scale)) goal.currency
    updated ← plus progress amount
    require_non_negative updated Error.goal_progress_negative

  unfoldable pub allocate_goal : ℕ → AllocateGoalCommand → Store → Result Store
  unfolding get_goal check_allocation normalize_optional_text add_audit_event
  allocate_goal id command s = do
    goal ← or_raise (get_goal id user s) Error.goal_not_found
    updated ← check_allocation goal command.amount
    note ← normalize_optional_text command.note TextField.other_text 500
    let allocation = allocation_of user goal command note
    raise_if (any (repeats_allocation allocation) s.allocations) Error.goal_allocation_conflict
    ok (
        add_audit_event user AuditAction.allocate_event goal.id command.client_operation_id
          (record s {
            goals = put goal_key (funded_row goal updated) s.goals;
            allocations = allocation ∷ s.allocations;
          }))
