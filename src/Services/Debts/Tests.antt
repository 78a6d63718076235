-- ===== src/Services/Debts/Tests.antt =====
-- A debt of a person, a payment of a part of it and its cancellation, at concrete inputs.
use plan_it.Common.{
  if◌then◌else◌, ◌∷◌, ◌≡◌, arith, refl, ◌+◌, some, none, [], ok, false, inl, inr, not, ℕ, subst,
  ◌==◌, ◌&&◌,
}
use plan_it.Common.Text.{Text, text, strip, text_eq}
use plan_it.Common.Int.{pos, ◌-ℤ◌, ◌+ℤ◌, ltb_ℤ, ◌≤ℤ◌}
use plan_it.Common.Time.{Instant, Datetime, to_utc, max_instant}
use plan_it.Services.Debts.{
  repay, RepayDebtCommand, cancel, cancelled_debt, check_repayment, post_repayment, new_payment,
  flush_movement, CancelDebtCommand,
}
use plan_it.Store.{
  Store, AccountModel, DebtModel, PersonModel, AuditAction, add_audit_event, debt_key,
}
use plan_it.Services.Debts.Coherent.{IsCoherent, repay-IsCoherent, IsPaid, find-put-cases}
use plan_it.Store.Movement.{bump_account, build_posted_movement, violated}
use plan_it.Debts.{DebtDirection, DebtOriginType, status_for, DebtStatus}
use plan_it.Ledger.Policies.{normalize_optional_text, normalize_timestamp, require_not_future}
use plan_it.Ledger.Enums.{AccountStatus, TransactionKind, AccountEffect, TransactionStatus}
use plan_it.Money.{require_positive, minus}
use plan_it.Store.Table.{find, put}
use plan_it.Store.Balance.{
  require_account, require_projected_balance, movement_total, get_account, get_balance,
}
use plan_it.Services.Debts.Posting.{repayment_change, repay-movement_total}
use plan_it.Store.Debts.{get_debt, paid_amount, insert_payment, get_person}
use plan_it.Services.Debts.Settled.{DebtCalls, DebtCall}
use plan_it.Services.Debts.Covered.{repay-covers}

abbrev wallet : AccountModel
wallet = record {
  id = 1;
  user_id = 7;
  name = text "Purse";
  currency = text "USD";
  opening_balance = pos 1_000_000;
  opened_at = pos 0;
  allow_negative = false;
  status = AccountStatus.active;
  version = 1;
}

abbrev ann : PersonModel
ann = record { id = 2; user_id = 7; name = text "Ann"; archived_at = none }

abbrev loan : DebtModel
loan = record {
  id = 3;
  user_id = 7;
  person_id = 2;
  direction = DebtDirection.receivable;
  origin_type = DebtOriginType.existing;
  origin_transaction_id = none;
  original_amount = pos 500_000;
  currency = text "USD";
  due_date = none;
  status = DebtStatus.open_debt;
  note = none;
  cancelled_at = none;
  cancellation_reason = none;
  client_operation_id = 40;
  version = 1;
}

abbrev before : Store
before = record {
  accounts = wallet ∷ [];
  transactions = [];
  people = ann ∷ [];
  debts = loan ∷ [];
  payments = [];
  categories = [];
  tags = [];
  transaction_tags = [];
  merchants = [];
  locations = [];
  products = [];
  items = [];
  transfers = [];
  reconciliations = [];
  rules = [];
  occurrences = [];
  goals = [];
  allocations = [];
  audit = [];
}

abbrev name_of : ℕ → Text → ℕ
name_of operation label = operation + 1000

abbrev payment : RepayDebtCommand
payment = record {
  id = 5;
  client_operation_id = 41;
  transaction_id = 6;
  account_id = 1;
  amount = record { amount = pos 200_000; currency = text "USD" };
  paid_at = Datetime.aware (pos 80) (pos 10);
  note = some (text " first ");
}

abbrev after : Store
after = record {
  accounts = bump_account wallet ∷ [];
  transactions =
      record {
        id = 6;
        user_id = 7;
        account_id = 1;
        kind = TransactionKind.debt_repayment_in;
        effect = AccountEffect.inflow;
        amount = pos 200_000;
        currency = text "USD";
        occurred_at = pos 70;
        status = TransactionStatus.posted;
        category_id = none;
        merchant_id = none;
        merchant_location_id = none;
        counterparty = some (text "Ann");
        note = some (text "first");
        parent_transaction_id = none;
        reversal_of_id = none;
        client_operation_id = 1041;
        version = 1;
      }
      ∷ [];
  people = ann ∷ [];
  debts = record loan { status = DebtStatus.partially_paid; version = 2 } ∷ [];
  payments = new_payment 7 3 (pos 70) payment ∷ [];
  categories = [];
  tags = [];
  transaction_tags = [];
  merchants = [];
  locations = [];
  products = [];
  items = [];
  transfers = [];
  reconciliations = [];
  rules = [];
  occurrences = [];
  goals = [];
  allocations = [];
  audit =
      record {
        user_id = 7;
        action = AuditAction.debt_payment;
        entity_id = 3;
        client_operation_id = some 41;
      }
      ∷ [];
}

repay_run : repay name_of (pos 100) 7 3 payment before ≡ ok after
unfolding repay check_repayment post_repayment require_positive normalize_timestamp
    require_not_future get_debt paid_amount require_account require_projected_balance
    normalize_optional_text build_posted_movement flush_movement status_for insert_payment
    add_audit_event get_person violated find put to_utc ◌+ℤ◌ ◌-ℤ◌ text_eq strip
repay_run = refl

before-IsCoherent : IsCoherent before
unfolding IsCoherent IsPaid paid_amount status_for put find ◌-ℤ◌
before-IsCoherent k d found = elim (find-put-cases debt_key loan [] k found) [
  | inl same ↦ subst (λ (e : DebtModel). IsPaid e []) same (omega arith, inr refl)
  | inr (other, old) ↦ cc
]

repay-IsCoherent_example : IsCoherent after
repay-IsCoherent_example =
    repay-IsCoherent name_of (pos 100) 7 3 payment before before-IsCoherent repay_run

-- Money that was borrowed, and the same payment of it.
abbrev borrowed : DebtModel
borrowed = record loan { direction = DebtDirection.payable; origin_type = DebtOriginType.existing }

abbrev owing : Store
owing = record before { debts = borrowed ∷ [] }

abbrev paid_back : Store
paid_back = record after {
  transactions =
      record {
        id = 6;
        user_id = 7;
        account_id = 1;
        kind = TransactionKind.debt_repayment_out;
        effect = AccountEffect.outflow;
        amount = pos 200_000;
        currency = text "USD";
        occurred_at = pos 70;
        status = TransactionStatus.posted;
        category_id = none;
        merchant_id = none;
        merchant_location_id = none;
        counterparty = some (text "Ann");
        note = some (text "first");
        parent_transaction_id = none;
        reversal_of_id = none;
        client_operation_id = 1041;
        version = 1;
      }
      ∷ [];
  debts = record borrowed { status = DebtStatus.partially_paid; version = 2 } ∷ [];
}

pay_back_run : repay name_of (pos 100) 7 3 payment owing ≡ ok paid_back
unfolding repay check_repayment post_repayment require_positive normalize_timestamp
    require_not_future get_debt paid_amount require_account require_projected_balance
    normalize_optional_text build_posted_movement flush_movement status_for insert_payment
    add_audit_event get_person violated find put to_utc ◌+ℤ◌ ◌-ℤ◌ text_eq strip get_balance
    movement_total minus
pay_back_run = refl

repay-covers_example :
    (debt : DebtModel) × (account : AccountModel) × (paid_at : Instant) × (get_debt 3 7 owing
      ≡ some debt)
    × (get_account 1 7 owing ≡ some account)
    × (normalize_timestamp payment.paid_at ≡ ok paid_at)
    × (account.allow_negative ≡ false
        → debt.direction ≡ DebtDirection.payable
        → pos 0
          ≤ℤ account.opening_balance
            +ℤ movement_total 7 account.id (max_instant (pos 100) paid_at) paid_back.transactions)
repay-covers_example = repay-covers name_of (pos 100) 7 3 payment owing pay_back_run

-- A settled debt beside an open one, and the cancellation of the open one.
abbrev settled_loan : DebtModel
settled_loan = record loan { id = 4; status = DebtStatus.settled; version = 2 }

abbrev gift : CancelDebtCommand
gift = record { version = 1; reason = text " gift " }

abbrev pair : Store
pair = record before { debts = loan ∷ (settled_loan ∷ []) }

abbrev dropped : Store
dropped = record pair {
  debts = cancelled_debt (pos 100) loan (text "gift") ∷ (settled_loan ∷ []);
  audit =
      record {
        user_id = 7;
        action = AuditAction.cancel_debt;
        entity_id = 3;
        client_operation_id = some 42;
      }
      ∷ [];
}

cancel_run : cancel name_of (pos 100) 7 3 gift 42 pair ≡ ok dropped
unfolding cancel get_debt normalize_optional_text add_audit_event find put strip
cancel_run = refl

-- A second cancellation of the same debt is not refused: it takes the new reason.
abbrev dropped_again : Store
dropped_again = record pair {
  debts =
      cancelled_debt (pos 200) (cancelled_debt (pos 100) loan (text "gift")) (text "gift")
      ∷ (settled_loan ∷ []);
  audit =
      record {
        user_id = 7;
        action = AuditAction.cancel_debt;
        entity_id = 3;
        client_operation_id = some 43;
      }
      ∷ dropped.audit;
}

cancel_again_run :
    cancel name_of (pos 200) 7 3 (record gift { version = 2 }) 43 dropped ≡ ok dropped_again
unfolding cancel get_debt normalize_optional_text add_audit_event find put strip
cancel_again_run = refl

abbrev cancel_calls : DebtCalls name_of pair dropped_again
cancel_calls =
    DebtCalls.next
      (DebtCalls.next DebtCalls.start (DebtCall.cancels (pos 100) 7 3 gift 42 cancel_run))
      (DebtCall.cancels (pos 200) 7 3 (record gift { version = 2 }) 43 cancel_again_run)

repay-movement_total_example :
    (debt : DebtModel) × (paid_at : Instant) × (get_debt 3 7 before ≡ some debt)
    × (normalize_timestamp payment.paid_at ≡ ok paid_at)
    × ((account : ℕ) (as_of : Instant)
        → movement_total 7 account as_of after.transactions
          ≡ (if 1 == account && not (ltb_ℤ as_of paid_at)
              then repayment_change debt.direction (pos 200_000)
              else pos 0)
            +ℤ movement_total 7 account as_of before.transactions)
repay-movement_total_example = repay-movement_total name_of (pos 100) 7 3 payment before repay_run
