-- ===== src/Services/Planning/Rules.antt =====
-- `create_rule_in_transaction` and `update_rule_in_transaction`.
use plan_it.Common.{
  ◌>>◌, ◌>>=◌, ◌∷◌, ◌+◌, some, none, ok, err, false, Error, Result, not, ℕ, Option, raise_if,
  or_raise, is_some,
}
use plan_it.Common.Text.{Text, text_eq}
use plan_it.Common.Time.{Datetime, to_utc, Instant}
use plan_it.Services.Transactions.Checks.{require_category, require_version}
use plan_it.Store.Rows.{RecurringRuleModel}
use plan_it.Store.Balance.{get_account}
use plan_it.Services.Transactions.Purchases.{get_merchant}
use plan_it.Store.{Store, add_audit_event, AuditAction}
use plan_it.Planning.{
  Zone, RecurringFrequency, normalize_planning_name, normalize_timezone, recurrence_anchor_day,
  RecurringMode, RecurringStatus,
}
use plan_it.Ledger.Enums.{TransactionKind, is_expense}
use plan_it.Money.{Money, require_positive, money, scale}
use plan_it.Store.Planning.{get_rule, rule_key}
use plan_it.Ledger.Policies.{normalize_optional_text, is_core_kind, TextField}
use plan_it.Store.Table.{find, put}
use plan_it.Services.Transactions.Drafts.{given_text, given}
use plan_it.Decimal.{finite, dec}

pub record CreateRecurringRuleCommand : Type 0 where
  pub id : ℕ
  pub name : Text
  pub kind : TransactionKind
  pub account_id : ℕ
  pub category_id : Option ℕ
  pub merchant_id : Option ℕ
  pub amount : Money
  pub frequency : RecurringFrequency
  pub timezone : Text
  pub next_due_at : Datetime
  pub mode : RecurringMode
  pub note : Option Text

-- `values`: a key that is absent is `none`; a `next_due_at` that is no time is `some none`.
pub record UpdateRecurringRuleCommand : Type 0 where
  pub version : ℕ
  pub amount : Option Money
  pub account_id : Option ℕ
  pub category_id : Option (Option ℕ)
  pub merchant_id : Option (Option ℕ)
  pub name : Option Text
  pub next_due_at : Option (Option Datetime)
  pub frequency : Option RecurringFrequency
  pub mode : Option RecurringMode
  pub status : Option RecurringStatus
  pub note : Option (Option Text)

-- `_require_account`.
unfoldable pub require_planning_account : ℕ → ℕ → Money → Store → Result (Unit {0})
unfolding get_account
require_planning_account user id amount s = do
  account ← or_raise (get_account id user s) Error.account_not_found
  raise_if (not (text_eq account.currency amount.currency)) Error.currency_mismatch

unfoldable pub require_rule_merchant : ℕ → TransactionKind → Option ℕ → Store → Result (Unit {0})
unfolding get_merchant
require_rule_merchant user kind none s = ok tt
require_rule_merchant user kind (some id) s = do
  raise_if (not (is_expense kind)) Error.merchant_expense_only
  merchant ← or_raise (get_merchant id user s) Error.merchant_not_found
  raise_if (is_some merchant.archived_at) Error.merchant_not_found

-- `_require_rule_references`; its check of the category is the one of a draft.
unfoldable pub require_rule_references :
    ℕ → TransactionKind → ℕ → Option ℕ → Option ℕ → Money → Store → Result (Unit {0})
unfolding require_planning_account require_category require_rule_merchant
require_rule_references user kind account_id category_id merchant_id amount s = do
  require_planning_account user account_id amount s
  require_category user category_id kind false s
  require_rule_merchant user kind merchant_id s

-- A new row of the table, flushed.
unfoldable pub insert_rule_row : RecurringRuleModel → Store → Result Store
insert_rule_row r s = do
  raise_if (is_some (find rule_key r.id s.rules)) Error.recurring_rule_conflict
  ok (record s { rules = r ∷ s.rules })

unfoldable pub given_name : Option Text → Text → Result Text
unfolding normalize_planning_name
given_name none present = ok present
given_name (some value) present = normalize_planning_name value

module _ (zone_info : Text → Option Zone) (user : ℕ) where
  unfoldable pub create_rule : CreateRecurringRuleCommand → ℕ → Store → Result Store
  unfolding require_positive require_rule_references normalize_planning_name normalize_timezone
      to_utc recurrence_anchor_day normalize_optional_text insert_rule_row add_audit_event
  create_rule command operation s = do
    raise_if (not (is_core_kind command.kind)) Error.invalid_recurring_kind
    require_positive command.amount Error.non_positive_amount
    require_rule_references user command.kind command.account_id command.category_id
        command.merchant_id command.amount s
    name ← normalize_planning_name command.name
    timezone ← normalize_timezone zone_info command.timezone
    next_due_at ← to_utc command.next_due_at
    anchor_day ← recurrence_anchor_day zone_info command.next_due_at command.timezone
    note ← normalize_optional_text command.note TextField.other_text 2000
    let model : RecurringRuleModel = record {
      id = command.id;
      user_id = user;
      name = name;
      kind = command.kind;
      account_id = command.account_id;
      category_id = command.category_id;
      merchant_id = command.merchant_id;
      amount = command.amount.amount;
      currency = command.amount.currency;
      frequency = command.frequency;
      timezone = timezone;
      next_due_at = next_due_at;
      anchor_day = anchor_day;
      mode = command.mode;
      note = note;
      status = RecurringStatus.active_rule;
      version = 1;
    }
    added ← insert_rule_row model s
    ok (add_audit_event user AuditAction.create_rule_event command.id operation added)

  -- The next due time with its anchor day.
  unfoldable pub given_due : Option (Option Datetime) → RecurringRuleModel → Result (Instant × ℕ)
  unfolding to_utc recurrence_anchor_day
  given_due none model = ok (model.next_due_at, model.anchor_day)
  given_due (some none) model = err Error.invalid_timestamp
  given_due (some (some value)) model = do
    next_due_at ← to_utc value
    anchor_day ← recurrence_anchor_day zone_info value model.timezone
    ok (next_due_at, anchor_day)

  unfoldable pub update_rule : ℕ → UpdateRecurringRuleCommand → ℕ → Store → Result Store
  unfolding get_rule money require_rule_references given_name given_due given_text add_audit_event
  update_rule id command operation s = do
    model ← or_raise (get_rule id user s) Error.recurring_rule_not_found
    require_version model.version command.version
    present ← money (finite (dec model.amount scale)) model.currency
    let amount = given command.amount present
    let account_id = given command.account_id model.account_id
    let category_id = given command.category_id model.category_id
    let merchant_id = given command.merchant_id model.merchant_id
    require_rule_references user model.kind account_id category_id merchant_id amount s
    name ← given_name command.name model.name
    (next_due_at, anchor_day) ← given_due command.next_due_at model
    note ← given_text command.note model.note TextField.other_text 2000
    let row = record model {
      name = name;
      account_id = account_id;
      category_id = category_id;
      merchant_id = merchant_id;
      amount = amount.amount;
      currency = amount.currency;
      frequency = given command.frequency model.frequency;
      next_due_at = next_due_at;
      anchor_day = anchor_day;
      mode = given command.mode model.mode;
      note = note;
      status = given command.status model.status;
      version = model.version + 1;
    }
    ok (
        add_audit_event user AuditAction.update_rule_event model.id operation
          (record s { rules = put rule_key row s.rules }))
