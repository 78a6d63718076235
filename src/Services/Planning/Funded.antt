-- ===== src/Services/Planning/Funded.antt =====
-- The progress of goals against their allocations.
use plan_it.Common.{
  ◌∷◌, ◌≡◌, arith, refl, ◌+◌, some, none, ok, false, Error, not, ℕ, Option, >>=-eq-ok, is_some,
  or_raise, raise_if-eq-ok, ◌==◌, ap, sym, ok-injective, or_raise-eq-ok, List,
}
use plan_it.Common.Int.{ℤ, pos, ◌≤ℤ◌}
use plan_it.Services.Planning.Goals.{
  create_goal, update_goal, CreateGoalCommand, UpdateGoalCommand, AllocateGoalCommand,
  require_linked_account, allocate_goal, given_target,
}
use plan_it.Store.Planning.{get_goal, allocated, goal_key}
use plan_it.Store.{Store, add_audit_event}
use plan_it.Store.Rows.{SavingsGoalModel, GoalAllocationModel}
use plan_it.Store.Table.{find, put, find-key}
use plan_it.Money.{require_positive}
use plan_it.Planning.{normalize_planning_name, GoalStatus}
use plan_it.Services.Planning.Rules.{given_name}
use plan_it.Services.Transactions.Drafts.{given}

-- What is kept about the goal with an identifier and the sum of the allocations to it.
abbrev pub Funded : ℤ → Option SavingsGoalModel → Type 0
Funded total none = total ≡ pos 0
Funded total (some g) = (g.manual_progress ≡ total) × (pos 0 ≤ℤ g.manual_progress)

abbrev pub FundedAt : ℕ → List SavingsGoalModel → List GoalAllocationModel → Type 0
FundedAt k goals allocations = Funded (allocated k allocations) (find goal_key k goals)

-- The progress of each goal is the sum of its allocations and not negative; what is not a goal has
-- no allocations.
abbrev pub IsFunded : Store → Type 0
IsFunded s = (k : ℕ) → FundedAt k s.goals s.allocations

-- A call on goals that succeeds, of any user.
pub data GoalCall (s : Store) (t : Store) : Type 0 where
  creates :
      (user : ℕ) (command : CreateGoalCommand) (operation : ℕ)
      → create_goal user command operation s ≡ ok t
      → GoalCall s t
  updates :
      (user id : ℕ) (command : UpdateGoalCommand) (operation : ℕ)
      → update_goal user id command operation s ≡ ok t
      → GoalCall s t
  allocates :
      (user id : ℕ) (command : AllocateGoalCommand)
      → allocate_goal user id command s ≡ ok t
      → GoalCall s t

pub data GoalCalls (s : Store) : Store → Type 0 where
  start : GoalCalls s s
  next : {t u : Store} → GoalCalls s t → GoalCall t u → GoalCalls s u

pub get_goal-find :
    (id user : ℕ) (s : Store) {g : SavingsGoalModel}
    → get_goal id user s ≡ some g
    → (find goal_key id s.goals ≡ some g) × (g.id ≡ id)
unfolding get_goal
get_goal-find id user s {g} h =
    let held : find goal_key id s.goals ≡ some g = ground arith in
    (held, find-key goal_key id s.goals held)

pub record IsCreated (s : Store) (t : Store) : Type 0 where
  pub goal : SavingsGoalModel
  pub unused : find goal_key goal.id s.goals ≡ none
  pub empty : goal.manual_progress ≡ pos 0
  pub goals_after : t.goals ≡ goal ∷ s.goals
  pub allocations_after : t.allocations ≡ s.allocations

absent_of_passed : (found : Option SavingsGoalModel) → is_some found ≡ false → found ≡ none
absent_of_passed found h = ground arith

pub create_goal-IsCreated :
    (user : ℕ) (command : CreateGoalCommand) (operation : ℕ) (s : Store) {t : Store}
    → create_goal user command operation s ≡ ok t
    → IsCreated s t
unfolding create_goal add_audit_event
create_goal-IsCreated user command operation s h =
    let (_, _, h₁) =
      >>=-eq-ok (require_positive command.target_amount Error.invalid_goal_target) _ h in
    let (_, _, h₂) =
      >>=-eq-ok (require_linked_account user command.linked_account_id command.target_amount s) _
        h₁ in
    let (name, _, h₃) = >>=-eq-ok (normalize_planning_name command.name) _ h₂ in
    let (free, h₄) = raise_if-eq-ok (is_some (find goal_key command.id s.goals)) _ _ h₃ in
    record {
      goal = record {
        id = command.id;
        user_id = user;
        name = name;
        target_amount = command.target_amount.amount;
        currency = command.target_amount.currency;
        target_date = command.target_date;
        linked_account_id = command.linked_account_id;
        manual_progress = pos 0;
        status = GoalStatus.active_goal;
        version = 1;
      };
      unused = absent_of_passed _ free;
      empty = refl;
      goals_after = ap (λ u. u.goals) (sym (ok-injective h₄));
      allocations_after = ap (λ u. u.allocations) (sym (ok-injective h₄));
    }

pub record IsUpdated (id user : ℕ) (s : Store) (t : Store) : Type 0 where
  pub goal : SavingsGoalModel
  pub row : SavingsGoalModel
  pub owned : get_goal id user s ≡ some goal
  pub same : row.id ≡ goal.id
  pub kept : row.manual_progress ≡ goal.manual_progress
  pub goals_after : t.goals ≡ put goal_key row s.goals
  pub allocations_after : t.allocations ≡ s.allocations

pub update_goal-IsUpdated :
    (user id : ℕ) (command : UpdateGoalCommand) (operation : ℕ) (s : Store) {t : Store}
    → update_goal user id command operation s ≡ ok t
    → IsUpdated id user s t
unfolding update_goal add_audit_event
update_goal-IsUpdated user id command operation s h =
    let (model, found, h₁) = >>=-eq-ok (or_raise (get_goal id user s) Error.goal_not_found) _ h in
    let (_, h₂) = raise_if-eq-ok (not (model.version == command.version)) _ _ h₁ in
    let (name, _, h₃) = >>=-eq-ok (given_name command.name model.name) _ h₂ in
    let (target, _, h₄) = >>=-eq-ok (given_target user command.target_amount model) _ h₃ in
    record {
      goal = model;
      row = record model {
        name = name;
        target_date = given command.target_date model.target_date;
        target_amount = target;
        status = given command.status model.status;
        version = model.version + 1;
      };
      owned = or_raise-eq-ok _ _ found;
      same = refl;
      kept = refl;
      goals_after = ap (λ u. u.goals) (sym (ok-injective h₄));
      allocations_after = ap (λ u. u.allocations) (sym (ok-injective h₄));
    }
