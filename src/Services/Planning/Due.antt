-- ===== src/Services/Planning/Due.antt =====
-- `process_due_in_transaction`, `record_occurrence_in_transaction` and
-- `skip_occurrence_in_transaction`.
use plan_it.Common.{
  if◌then◌else◌, ◌>>◌, ◌>>=◌, ◌∷◌, ◌+◌, some, none, [], ok, err, true, false, Error, Result, not, ℕ,
  Option, Bool, ◌==◌, or_raise, raise_if, ◌++◌, List, length, any, ◌||◌,
}
use plan_it.Common.Text.{Text, text}
use plan_it.Common.Time.{Instant, to_utc, Datetime}
use plan_it.Common.Int.{pos}
use plan_it.Store.Rows.{RecurringOccurrenceModel, OccurrenceStatus, RecurringRuleModel}
use plan_it.Planning.{RecurringMode, Zone, advance_due}
use plan_it.Store.Planning.{
  get_occurrence, occurrence_for, get_rule, is_scheduled, due_rules, occurrence_key, rule_key,
}
use plan_it.Store.{add_batch_event, Store, AuditAction}
use plan_it.Money.{money, scale, Money}
use plan_it.Services.Transactions.Drafts.{create_draft, CreateTransactionCommand}
use plan_it.Store.Table.{put}
use plan_it.Decimal.{finite, dec}

-- `rule.note or f"Recurring: {rule.name}"`.
abbrev pub draft_note : RecurringRuleModel → Text
draft_note rule = elim rule.note [
  | none ↦ text "Recurring: " ++ rule.name
  | some remark ↦ if length remark == 0 then text "Recurring: " ++ rule.name else remark
]

abbrev pub is_auto_draft : RecurringMode → Bool
is_auto_draft RecurringMode.auto_draft = true
is_auto_draft RecurringMode.reminder = false

abbrev pub is_due_status : OccurrenceStatus → Bool
is_due_status OccurrenceStatus.due = true
is_due_status _ = false

abbrev pub same_transaction : Option ℕ → Option ℕ → Bool
same_transaction (some a) (some b) = a == b
same_transaction _ _ = false

-- The primary key and the two unique constraints of the table.
abbrev pub collides : RecurringOccurrenceModel → RecurringOccurrenceModel → Bool
collides o q =
    o.id == q.id
    || (is_scheduled o.rule_id o.scheduled_for q
        || same_transaction o.transaction_id q.transaction_id)

-- A new row of the table, flushed.
unfoldable pub insert_occurrence : RecurringOccurrenceModel → Store → Result Store
insert_occurrence o s = do
  raise_if (any (collides o) s.occurrences) Error.integrity_error
  ok (record s { occurrences = o ∷ s.occurrences })

-- `uuid5`, the text of a time and `ZoneInfo` are parameters.
module _ (name_of : ℕ → Text → ℕ) (isoformat : Instant → Text)
    (zone_info : Text → Option Zone) where
  -- `_create_occurrence_draft` with the identifier that it returns.
  abbrev pub draft_id : ℕ → ℕ
  draft_id occurrence = name_of occurrence (text "transaction")

  abbrev pub draft_command : RecurringRuleModel → ℕ → Instant → Money → CreateTransactionCommand
  draft_command rule occurrence scheduled_for amount = record {
    id = draft_id occurrence;
    client_operation_id = name_of occurrence (text "transaction-operation");
    account_id = rule.account_id;
    kind = rule.kind;
    amount = amount;
    occurred_at = Datetime.aware scheduled_for (pos 0);
    category_id = rule.category_id;
    merchant_id = rule.merchant_id;
    merchant_location_id = none;
    counterparty = none;
    note = some (draft_note rule);
    tag_ids = [];
    items = [];
  }

  unfoldable pub create_occurrence_draft : RecurringRuleModel → ℕ → Instant → Store → Result Store
  unfolding money create_draft
  create_occurrence_draft rule occurrence scheduled_for s = do
    amount ← money (finite (dec rule.amount scale)) rule.currency
    create_draft rule.user_id (draft_command rule occurrence scheduled_for amount) s

  abbrev pub new_occurrence : ℕ → RecurringRuleModel → RecurringOccurrenceModel
  new_occurrence user rule = record {
    id = name_of rule.id (isoformat rule.next_due_at);
    user_id = user;
    rule_id = rule.id;
    scheduled_for = rule.next_due_at;
    transaction_id = none;
    status = OccurrenceStatus.due;
  }

  -- The occurrence of a rule whose time has come, with a draft or as a reminder.
  unfoldable pub add_drafted : ℕ → RecurringRuleModel → Store → Result Store
  unfolding create_occurrence_draft insert_occurrence add_batch_event
  add_drafted user rule s = do
    let o : RecurringOccurrenceModel = new_occurrence user rule
    drafted ← create_occurrence_draft rule o.id rule.next_due_at s
    let row = record o {
      transaction_id = some (draft_id o.id);
      status = OccurrenceStatus.draft_created;
    }
    added ← insert_occurrence row drafted
    ok (add_batch_event user AuditAction.draft_created_event o.id added)

  unfoldable pub add_reminder : ℕ → RecurringRuleModel → Store → Result Store
  unfolding insert_occurrence add_batch_event
  add_reminder user rule s = do
    let o : RecurringOccurrenceModel = new_occurrence user rule
    added ← insert_occurrence o s
    ok (add_batch_event user AuditAction.due_event o.id added)

  -- Nothing is added where there is an occurrence already.
  unfoldable pub ensure_occurrence : ℕ → RecurringRuleModel → Store → Result Store
  unfolding occurrence_for add_drafted add_reminder
  ensure_occurrence user rule s =
      if occurrence_for rule.id rule.next_due_at s.occurrences
      then ok s
      else if is_auto_draft rule.mode
      then add_drafted user rule s
      else add_reminder user rule s

  -- One round of the loop.
  unfoldable pub process_rule : ℕ → RecurringRuleModel → Store → Result Store
  unfolding ensure_occurrence advance_due
  process_rule user rule s = do
    created ← ensure_occurrence user rule s
    next ←
        advance_due zone_info (Datetime.aware rule.next_due_at (pos 0)) rule.frequency rule.timezone
          (some rule.anchor_day)
    let row = record rule { next_due_at = next; version = rule.version + 1 }
    ok (record created { rules = put rule_key row created.rules })

  unfoldable pub process_rules : ℕ → List RecurringRuleModel → Store → Result Store
  unfolding process_rule
  process_rules user [] s = ok s
  process_rules user (rule ∷ rules) s = do
    next ← process_rule user rule s
    process_rules user rules next

  unfoldable pub process_due : ℕ → Datetime → ℕ → Store → Result Store
  unfolding to_utc due_rules process_rules
  process_due user now limit s = do
    current ← to_utc now
    process_rules user (due_rules user current limit s.rules) s

  unfoldable pub record_due : ℕ → RecurringOccurrenceModel → Store → Result Store
  unfolding get_rule create_occurrence_draft add_batch_event
  record_due user o s = do
    rule ← or_raise (get_rule o.rule_id user s) Error.recurring_rule_not_found
    drafted ← create_occurrence_draft rule o.id o.scheduled_for s
    let row = record o {
      transaction_id = some (draft_id o.id);
      status = OccurrenceStatus.draft_created;
    }
    ok (
        add_batch_event user AuditAction.occurrence_draft_event o.id
          (record drafted { occurrences = put occurrence_key row drafted.occurrences }))

  -- What is done with an occurrence of a status.
  unfoldable pub draft_from : OccurrenceStatus → ℕ → RecurringOccurrenceModel → Store → Result Store
  unfolding record_due
  draft_from OccurrenceStatus.draft_created user o s = ok s
  draft_from OccurrenceStatus.due user o s = record_due user o s
  draft_from OccurrenceStatus.recorded user o s = err Error.occurrence_not_recordable
  draft_from OccurrenceStatus.skipped user o s = err Error.occurrence_not_recordable

  -- `record_occurrence_in_transaction`.
  unfoldable pub draft_occurrence : ℕ → ℕ → Store → Result Store
  unfolding get_occurrence draft_from
  draft_occurrence user id s = do
    o ← or_raise (get_occurrence id user s) Error.occurrence_not_found
    draft_from o.status user o s

unfoldable pub skip_occurrence : ℕ → ℕ → Store → Result Store
unfolding get_occurrence add_batch_event
skip_occurrence user id s = do
  o ← or_raise (get_occurrence id user s) Error.occurrence_not_found
  raise_if (not (is_due_status o.status)) Error.occurrence_not_skippable
  let row = record o { status = OccurrenceStatus.skipped }
  ok (
      add_batch_event user AuditAction.skip_event o.id
        (record s { occurrences = put occurrence_key row s.occurrences }))
