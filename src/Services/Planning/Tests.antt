-- ===== src/Services/Planning/Tests.antt =====
-- Recurring rules and their occurrences, at concrete inputs.
use plan_it.Common.{
  if◌then◌else◌, ◌∷◌, ◌≡◌, refl, ◌+◌, some, none, [], ok, err, true, false, Error, ℕ, ◌*◌, Option,
  length, All, arith, inl, inr, ◌⊎◌, List, ◌++◌,
}
use plan_it.Common.Time.{Instant, Datetime, to_utc}
use plan_it.Common.Text.{Text, text, text_eq}
use plan_it.Common.Int.{pos, ◌-ℤ◌, ◌≤ℤ◌}
use plan_it.Store.Rows.{RecurringRuleModel, RecurringOccurrenceModel, OccurrenceStatus}
use plan_it.Store.{AuditAction, TransactionModel, Store}
use plan_it.Services.Planning.Due.{process_due, skip_occurrence, draft_occurrence}
use plan_it.Planning.{Zone, RecurringMode, RecurringFrequency, RecurringStatus}
use plan_it.Services.Fixtures.{opened, logged}
use plan_it.Ledger.Enums.{TransactionKind, AccountEffect, TransactionStatus}
use plan_it.Store.Table.{find, put}
use plan_it.Services.Planning.Processed.{IsUnique}
use plan_it.Services.Planning.Occurrence.{skip_occurrence-final, draft_occurrence-again}
use plan_it.Store.Planning.{occurrence_for, due_rules}
use plan_it.Services.Planning.Scheduled.{
  process_due-IsUnique, process_due-present, IsOfDueRule, process_due-occurrences,
}

-- A zone whose clock always shows the last day of a month, and whose months have 31 days.
abbrev plain : Zone
plain = record {
  from_utc = λ at. record { year = 2027; month = 1; day = 31; clock = 0; fold = false };
  local_to_utc = λ l. pos ((l.year * 12 + l.month) * 31 + l.day);
}

abbrev zones : Text → Option Zone
zones key = if text_eq key (text "UTC") then some plain else none

abbrev named : ℕ → Text → ℕ
named id label = id * 1000 + length label

abbrev iso : Instant → Text
iso at = text "2027-01-31"

abbrev rent : RecurringRuleModel
rent = record {
  id = 20;
  user_id = 7;
  name = text "Rent";
  kind = TransactionKind.expense;
  account_id = 1;
  category_id = some 4;
  merchant_id = none;
  amount = pos 500_000;
  currency = text "USD";
  frequency = RecurringFrequency.monthly;
  timezone = text "UTC";
  next_due_at = pos 50;
  anchor_day = 31;
  mode = RecurringMode.auto_draft;
  note = none;
  status = RecurringStatus.active_rule;
  version = 1;
}

abbrev gym : RecurringRuleModel
gym = record rent { id = 21; name = text "Gym"; mode = RecurringMode.reminder }

abbrev planned : Store
planned = record opened { rules = rent ∷ (gym ∷ []) }

abbrev moved : RecurringRuleModel → RecurringRuleModel
moved r = record r { next_due_at = pos ((2027 * 12 + 2) * 31 + 28); version = 2 }

abbrev rent_draft : TransactionModel
rent_draft = record {
  id = 20_010_011;
  user_id = 7;
  account_id = 1;
  kind = TransactionKind.expense;
  effect = AccountEffect.outflow;
  amount = pos 500_000;
  currency = text "USD";
  occurred_at = pos 50;
  status = TransactionStatus.draft;
  category_id = some 4;
  merchant_id = none;
  merchant_location_id = none;
  counterparty = none;
  note = some (text "Recurring: Rent");
  parent_transaction_id = none;
  reversal_of_id = none;
  client_operation_id = 20_010_021;
  version = 1;
}

abbrev gym_due : RecurringOccurrenceModel
gym_due = record {
  id = 21_010;
  user_id = 7;
  rule_id = 21;
  scheduled_for = pos 50;
  transaction_id = none;
  status = OccurrenceStatus.due;
}

abbrev rent_drafted : RecurringOccurrenceModel
rent_drafted = record {
  id = 20_010;
  user_id = 7;
  rule_id = 20;
  scheduled_for = pos 50;
  transaction_id = some 20_010_011;
  status = OccurrenceStatus.draft_created;
}

abbrev processed : Store
processed = record planned {
  transactions = rent_draft ∷ [];
  rules = moved rent ∷ (moved gym ∷ []);
  occurrences = gym_due ∷ (rent_drafted ∷ []);
  audit =
      logged AuditAction.due_event 21_010 none
      ∷ (logged AuditAction.draft_created_event 20_010 none
          ∷ (logged AuditAction.create_draft_event 20_010_011 (some 20_010_021) ∷ []));
}

process_run :
    process_due named iso zones 7 (Datetime.aware (pos 60) (pos 0)) 10 planned ≡ ok processed
unfolding process_due ◌-ℤ◌ find put
process_run = refl

-- The same at the moment at which both fall due.
process_on_time_run :
    process_due named iso zones 7 (Datetime.aware (pos 50) (pos 0)) 10 planned ≡ ok processed
unfolding process_due ◌-ℤ◌ find put
process_on_time_run = refl

on_time : to_utc (Datetime.aware (pos 50) (pos 0)) ≡ ok (pos 50)
unfolding to_utc ◌-ℤ◌
on_time = refl

-- A batch of two rules, and the rule that fell due at its very moment.
process_due-present_example :
    (occurrence_for 21 (pos 50) processed.occurrences ≡ true)
    ⊎ ((length (due_rules 7 (pos 50) 10 planned.rules) ≡ 10)
        × All (λ q. q.next_due_at ≤ℤ pos 50) (due_rules 7 (pos 50) 10 planned.rules)
        × All
            (λ q. occurrence_for q.id q.next_due_at processed.occurrences ≡ true)
            (due_rules 7 (pos 50) 10 planned.rules))
process_due-present_example =
    process_due-present named iso zones 7 (Datetime.aware (pos 50) (pos 0)) 10 planned gym
      process_on_time_run on_time (inr (inl refl)) refl refl (omega arith)

process_due-occurrences_example :
    (current : Instant) × (to_utc (Datetime.aware (pos 60) (pos 0)) ≡ ok current)
    × ((added : List RecurringOccurrenceModel) × (processed.occurrences
          ≡ added ++ planned.occurrences)
        × All (IsOfDueRule 7 current planned.rules) added)
process_due-occurrences_example =
    process_due-occurrences named iso zones 7 (Datetime.aware (pos 60) (pos 0)) 10 planned
      process_run

process_due-IsUnique_example : IsUnique processed.occurrences
process_due-IsUnique_example =
    process_due-IsUnique named iso zones 7 (Datetime.aware (pos 60) (pos 0)) 10 planned process_run
      tt

abbrev gym_draft : TransactionModel
gym_draft = record rent_draft {
  id = 21_010_011;
  note = some (text "Recurring: Gym");
  client_operation_id = 21_010_021;
}

abbrev recorded : Store
recorded = record processed {
  transactions = gym_draft ∷ (rent_draft ∷ []);
  occurrences =
      record gym_due { transaction_id = some 21_010_011; status = OccurrenceStatus.draft_created }
      ∷ (rent_drafted ∷ []);
  audit =
      logged AuditAction.occurrence_draft_event 21_010 none
      ∷ (logged AuditAction.create_draft_event 21_010_011 (some 21_010_021) ∷ processed.audit);
}

record_run : draft_occurrence named iso zones 7 21_010 processed ≡ ok recorded
unfolding draft_occurrence find put ◌-ℤ◌
record_run = refl

draft_occurrence-again_example : draft_occurrence named iso zones 7 21_010 recorded ≡ ok recorded
draft_occurrence-again_example =
    draft_occurrence-again named iso zones 7 21_010 processed record_run

abbrev skipped_gym : Store
skipped_gym = record processed {
  occurrences = record gym_due { status = OccurrenceStatus.skipped } ∷ (rent_drafted ∷ []);
  audit = logged AuditAction.skip_event 21_010 none ∷ processed.audit;
}

skip_run : skip_occurrence 7 21_010 processed ≡ ok skipped_gym
unfolding skip_occurrence find put
skip_run = refl

skip_occurrence-final_example :
    (draft_occurrence named iso zones 7 21_010 skipped_gym ≡ err Error.occurrence_not_recordable)
    × (skip_occurrence 7 21_010 skipped_gym ≡ err Error.occurrence_not_skippable)
skip_occurrence-final_example = skip_occurrence-final named iso zones 7 21_010 processed skip_run
