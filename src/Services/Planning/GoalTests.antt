-- ===== src/Services/Planning/GoalTests.antt =====
-- A goal and an allocation that completes it, at concrete inputs.
use plan_it.Common.{◌∷◌, ◌≡◌, refl, some, none, [], ok}
use plan_it.Common.Int.{pos, ◌-ℤ◌, ◌+ℤ◌}
use plan_it.Common.Text.{strip, text, text_eq}
use plan_it.Store.Rows.{SavingsGoalModel}
use plan_it.Services.Planning.Goals.{
  AllocateGoalCommand, create_goal, allocate_goal, CreateGoalCommand, allocation_of,
}
use plan_it.Services.Planning.Funded.{IsFunded, GoalCalls, GoalCall}
use plan_it.Store.{Store, AuditAction}
use plan_it.Store.Table.{find, put}
use plan_it.Services.Fixtures.{opened, logged}
use plan_it.Store.Planning.{allocated}
use plan_it.Services.Planning.Progress.{GoalCalls-IsFunded}
use plan_it.Planning.{GoalStatus}

abbrev trip : CreateGoalCommand
trip = record {
  id = 30;
  name = text "Trip";
  target_amount = record { amount = pos 1_000_000; currency = text "USD" };
  target_date = none;
  linked_account_id = none;
}

abbrev trip_row : SavingsGoalModel
trip_row = record {
  id = 30;
  user_id = 7;
  name = text "Trip";
  target_amount = pos 1_000_000;
  currency = text "USD";
  target_date = none;
  linked_account_id = none;
  manual_progress = pos 0;
  status = GoalStatus.active_goal;
  version = 1;
}

abbrev saving : Store
saving = record opened {
  goals = trip_row ∷ [];
  audit = logged AuditAction.create_goal_event 30 (some 51) ∷ [];
}

goal_run : create_goal 7 trip 51 opened ≡ ok saving
unfolding create_goal find strip ◌-ℤ◌
goal_run = refl

abbrev whole_sum : AllocateGoalCommand
whole_sum = record {
  id = 31;
  client_operation_id = 52;
  amount = record { amount = pos 1_000_000; currency = text "USD" };
  note = none;
}

abbrev saved : Store
saved = record saving {
  goals =
      record trip_row {
        manual_progress = pos 1_000_000;
        status = GoalStatus.completed;
        version = 2;
      }
      ∷ [];
  allocations = allocation_of 7 trip_row whole_sum none ∷ [];
  audit = logged AuditAction.allocate_event 30 (some 52) ∷ saving.audit;
}

allocate_run : allocate_goal 7 30 whole_sum saving ≡ ok saved
unfolding allocate_goal find put ◌-ℤ◌ ◌+ℤ◌ text_eq
allocate_run = refl

opened-IsFunded : IsFunded opened
unfolding find allocated
opened-IsFunded k = refl

GoalCalls-IsFunded_example : IsFunded saved
GoalCalls-IsFunded_example =
    GoalCalls-IsFunded
      (GoalCalls.next (GoalCalls.next GoalCalls.start (GoalCall.creates 7 trip 51 goal_run))
        (GoalCall.allocates 7 30 whole_sum allocate_run))
      opened-IsFunded
