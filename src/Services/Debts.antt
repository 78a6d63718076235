-- ===== src/Services/Debts.antt =====
-- `DebtService` (backend/app/application/debts.py). A method that raises leaves the database as it
-- was, since its transaction is rolled back; `now` is the time of the call.
pub mod Effect
pub mod Coherent
pub mod Posting
pub mod Covered
pub mod Steps
pub mod Settled
mod Tests
use plan_it.Common.{
  if◌then◌else◌, ◌>>◌, ◌>>=◌, ◌∷◌, ◌+◌, some, none, [], ok, err, true, false, Error, Result, not, ℕ,
  Option, List, raise_if, Bool, is_some, ◌==◌, any, ◌&&◌, or_raise, ◌≡◌, arith, refl, zero, suc,
  inl, inr,
}
use plan_it.Common.Text.{Text, text_eq, text}
use plan_it.Common.Time.{Instant, Datetime}
use plan_it.Common.Int.{ℤ, pos, ◌+ℤ◌, ltb_ℤ, ◌-ℤ◌}
use plan_it.Debts.{DebtOriginType, DebtDirection, DebtStatus, status_for, require_origin_direction}
use plan_it.Store.{
  DebtModel, DebtPaymentModel, TransactionModel, Store, PersonModel, person_key, debt_key,
  payment_key, add_audit_event, AuditAction, AccountModel,
}
use plan_it.Money.{Money, require_positive}
use plan_it.Store.Table.{find, put}
use plan_it.Ledger.Policies.{
  normalize_optional_text, normalize_timestamp, require_not_future, TextField,
}
use plan_it.Store.Movement.{
  violated, with_transaction, build_posted_movement, with_account, bump_account,
}
use plan_it.Store.Balance.{require_account, require_projected_balance}
use plan_it.Ledger.Enums.{TransactionKind, AccountEffect}
use plan_it.Store.Debts.{get_debt, paid_amount, get_person, insert_debt, with_debt, insert_payment}

pub record CreateDebtCommand : Type 0 where
  pub id : ℕ
  pub client_operation_id : ℕ
  pub person_id : ℕ
  pub direction : DebtDirection
  pub origin_type : DebtOriginType
  pub amount : Money
  pub note : Option Text
  pub account_id : Option ℕ
  pub transaction_id : Option ℕ
  pub occurred_at : Option Datetime
  pub due_date : Option ℕ

pub record RepayDebtCommand : Type 0 where
  pub id : ℕ
  pub client_operation_id : ℕ
  pub transaction_id : ℕ
  pub account_id : ℕ
  pub amount : Money
  pub paid_at : Datetime
  pub note : Option Text

pub record CancelDebtCommand : Type 0 where
  pub version : ℕ
  pub reason : Text

abbrev pub is_cash_origin : DebtOriginType → Bool
is_cash_origin DebtOriginType.lend_now = true
is_cash_origin DebtOriginType.borrow_now = true
is_cash_origin _ = false

abbrev pub accepts_payment : DebtStatus → Bool
accepts_payment DebtStatus.open_debt = true
accepts_payment DebtStatus.partially_paid = true
accepts_payment _ = false

abbrev pub is_settled : DebtStatus → Bool
is_settled DebtStatus.settled = true
is_settled _ = false

-- `self._transactions.add(movement)` and the flush after it, whose error no handler here catches.
unfoldable pub flush_movement : TransactionModel → Store → Result Store
flush_movement t s = do
  raise_if (is_some (violated t s)) Error.integrity_error
  ok (with_transaction t s)

-- `person.name if person else None`.
abbrev pub person_name : Option PersonModel → Option Text
person_name none = none
person_name (some p) = some p.name

-- The rows that the methods add.
abbrev pub new_payment : ℕ → ℕ → Instant → RepayDebtCommand → DebtPaymentModel
new_payment user debt_id paid_at command = record {
  id = command.id;
  user_id = user;
  debt_id = debt_id;
  transaction_id = command.transaction_id;
  amount = command.amount.amount;
  paid_at = paid_at;
  client_operation_id = command.client_operation_id;
}

abbrev pub new_debt : ℕ → CreateDebtCommand → PersonModel → Option ℕ → Option Text → DebtModel
new_debt user command person origin note = record {
  id = command.id;
  user_id = user;
  person_id = person.id;
  direction = command.direction;
  origin_type = command.origin_type;
  origin_transaction_id = origin;
  original_amount = command.amount.amount;
  currency = command.amount.currency;
  due_date = command.due_date;
  status = DebtStatus.open_debt;
  note = note;
  cancelled_at = none;
  cancellation_reason = none;
  client_operation_id = command.client_operation_id;
  version = 1;
}

abbrev pub cancelled_debt : Instant → DebtModel → Text → DebtModel
cancelled_debt now debt reason = record debt {
  status = DebtStatus.cancelled;
  cancelled_at = some now;
  cancellation_reason = some reason;
  version = debt.version + 1;
}

abbrev pub origin_kind : DebtOriginType → TransactionKind
origin_kind DebtOriginType.lend_now = TransactionKind.loan_principal_out
origin_kind _ = TransactionKind.loan_principal_in

abbrev pub origin_effect : DebtOriginType → AccountEffect
origin_effect DebtOriginType.lend_now = AccountEffect.outflow
origin_effect _ = AccountEffect.inflow

abbrev pub repayment_kind : DebtDirection → TransactionKind
repayment_kind DebtDirection.receivable = TransactionKind.debt_repayment_in
repayment_kind DebtDirection.payable = TransactionKind.debt_repayment_out

abbrev pub repayment_effect : DebtDirection → AccountEffect
repayment_effect DebtDirection.receivable = AccountEffect.inflow
repayment_effect DebtDirection.payable = AccountEffect.outflow

-- `uuid5` makes the identifiers of the movements' operations from those of the commands.
module _ (uuid5 : ℕ → Text → ℕ) (now : Instant) (user : ℕ) where
  -- The checks of `repay` on the command, the debt and the account; then the writes, behind the
  -- check of the projected balance.
  unfoldable pub check_repayment :
      ℕ → RepayDebtCommand → Store → Result (DebtModel × AccountModel × Instant)
  unfolding require_positive normalize_timestamp require_not_future get_debt paid_amount
      require_account
  check_repayment debt_id command s = do
    require_positive command.amount Error.non_positive_amount
    paid_at ← normalize_timestamp command.paid_at
    require_not_future paid_at now
    debt ← or_raise (get_debt debt_id user s) Error.debt_not_found
    raise_if (not (accepts_payment debt.status)) Error.debt_not_open
    raise_if (not (text_eq command.amount.currency debt.currency)) Error.currency_mismatch
    raise_if
        (ltb_ℤ (debt.original_amount -ℤ paid_amount debt.id user s.payments) command.amount.amount)
        Error.debt_overpayment
    account ← require_account command.account_id user command.amount s
    raise_if (ltb_ℤ paid_at account.opened_at) Error.transaction_before_account_opened
    ok (debt, account, paid_at)

  unfoldable pub post_repayment :
      RepayDebtCommand → DebtModel → AccountModel → Instant → Store → Result Store
  unfolding paid_amount require_projected_balance normalize_optional_text build_posted_movement
      flush_movement status_for insert_payment add_audit_event get_person
  post_repayment command debt account paid_at s = do
    require_projected_balance account user command.amount (repayment_effect debt.direction) paid_at
        now s
    note ← normalize_optional_text command.note TextField.other_text 2000
    flushed ←
        flush_movement
          (build_posted_movement command.transaction_id user account (repayment_kind debt.direction)
            (repayment_effect debt.direction) command.amount paid_at
            (person_name (get_person debt.person_id user s)) note
            (uuid5 command.client_operation_id (text "debt-payment")))
          s
    status ←
        status_for debt.original_amount
          (paid_amount debt.id user s.payments +ℤ command.amount.amount)
    stored ← insert_payment (new_payment user debt.id paid_at command) flushed
    ok (
        add_audit_event user AuditAction.debt_payment debt.id command.client_operation_id (
          with_account (bump_account account)
            (with_debt (record debt { status = status; version = debt.version + 1 }) stored)))

  unfoldable pub repay : ℕ → RepayDebtCommand → Store → Result Store
  unfolding check_repayment post_repayment
  repay debt_id command s = do
    (debt, account, paid_at) ← check_repayment debt_id command s
    post_repayment command debt account paid_at s

  unfoldable pub cancel : ℕ → CancelDebtCommand → ℕ → Store → Result Store
  unfolding get_debt normalize_optional_text add_audit_event
  cancel debt_id command operation s = do
    debt ← or_raise (get_debt debt_id user s) Error.debt_not_found
    raise_if (not (debt.version == command.version)) Error.version_conflict
    raise_if (is_settled debt.status) Error.debt_already_settled
    cleaned ← normalize_optional_text (some command.reason) TextField.other_text 1000
    reason ← or_raise cleaned Error.cancellation_reason_required
    ok (
        add_audit_event user AuditAction.cancel_debt debt.id operation
          (with_debt (cancelled_debt now debt reason) s))

  -- The movement of a cash origin: the store with it and its identifier.
  unfoldable pub post_origin :
      CreateDebtCommand
      → PersonModel
      → Option ℕ
      → Option ℕ
      → Option Datetime
      → Store
      → Result (Store × Option ℕ)
  unfolding normalize_timestamp require_not_future require_account require_projected_balance
      normalize_optional_text build_posted_movement flush_movement
  post_origin command person (some account_id) (some transaction_id) (some time) s = do
    occurred_at ← normalize_timestamp time
    require_not_future occurred_at now
    account ← require_account account_id user command.amount s
    raise_if (ltb_ℤ occurred_at account.opened_at) Error.transaction_before_account_opened
    require_projected_balance account user command.amount (origin_effect command.origin_type)
        occurred_at now s
    note ← normalize_optional_text command.note TextField.other_text 2000
    flushed ←
        flush_movement
          (build_posted_movement transaction_id user account (origin_kind command.origin_type)
            (origin_effect command.origin_type) command.amount occurred_at (some person.name) note
            (uuid5 command.client_operation_id (text "debt-origin")))
          s
    ok (with_account (bump_account account) flushed, some transaction_id)
  post_origin command person _ _ _ s = err Error.runtime_error

  unfoldable pub create : CreateDebtCommand → Store → Result Store
  unfolding require_positive require_origin_direction get_person post_origin normalize_optional_text
      insert_debt add_audit_event
  create command s = do
    require_positive command.amount Error.non_positive_amount
    require_origin_direction command.origin_type command.direction
    person ← or_raise (get_person command.person_id user s) Error.person_not_found
    raise_if (is_some person.archived_at) Error.person_not_found
    let cash = is_cash_origin command.origin_type
    let given =
        is_some command.account_id
        && (is_some command.transaction_id && is_some command.occurred_at)
    raise_if (if cash then not given else given) Error.invalid_debt_origin
    (posted, origin) ←
        (if cash
          then post_origin command person command.account_id command.transaction_id
              command.occurred_at s
          else ok (s, none))
    note ← normalize_optional_text command.note TextField.other_text 2000
    stored ← insert_debt (new_debt user command person origin note) posted
    ok (add_audit_event user AuditAction.create_debt command.id command.client_operation_id stored)
