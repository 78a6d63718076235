-- ===== src/Services/Corrections.antt =====
-- `CorrectionService` (backend/app/application/corrections.py): reconciliations. A method that raises
-- leaves the database as it was.
pub mod Evaluated
pub mod Reconciled
mod Tests
use plan_it.Common.{
  if◌then◌else◌, ◌>>◌, ◌>>=◌, ◌∷◌, ◌≡◌, arith, refl, ◌+◌, some, none, [], ok, err, true, false,
  zero, suc, inl, inr, Error, Result, not, ℕ, Option, Bool, ◌==◌, raise_if, or_raise, any, ◌&&◌,
}
use plan_it.Common.Int.{ℤ, ltb_ℤ, pos, eqb_ℤ, magnitude}
use plan_it.Common.Text.{Text, text_eq, text}
use plan_it.Common.Time.{Instant, Datetime, max_instant}
use plan_it.Ledger.Reconciliation.{
  ReconciliationSource, ReconciliationPreview, preview_reconciliation,
}
use plan_it.Store.Rows.{BalanceReconciliationModel}
use plan_it.Money.{Money, in_range, plus}
use plan_it.Store.Movement.{
  Constraint, violated, build_posted_movement, with_account, bump_account, with_transaction,
}
use plan_it.Ledger.Enums.{AccountEffect, is_active, TransactionKind}
use plan_it.Store.{Store, AccountModel, TransactionModel, add_audit_event, AuditAction}
use plan_it.Ledger.Policies.{
  normalize_timestamp, require_not_future, normalize_optional_text, TextField,
}
use plan_it.Store.Balance.{get_account, get_balance, status_code}

pub record ReconciliationPreviewCommand : Type 0 where
  pub account_id : ℕ
  pub actual_balance : Money
  pub effective_at : Datetime

pub record CommitReconciliationCommand : Type 0 where
  pub id : ℕ
  pub client_operation_id : ℕ
  pub adjustment_transaction_id : ℕ
  pub preview : ReconciliationPreviewCommand
  pub source_fingerprint : Text
  pub reason : Option Text

-- The unique constraints of the table.
abbrev pub repeats_reconciliation_operation :
    BalanceReconciliationModel → BalanceReconciliationModel → Bool
repeats_reconciliation_operation r q =
    r.user_id == q.user_id && r.client_operation_id == q.client_operation_id

-- A new row of the table, flushed, with the errors of `_flush`.
unfoldable pub insert_reconciliation : BalanceReconciliationModel → Store → Result Store
insert_reconciliation r s = do
  raise_if (any (λ q. r.id == q.id) s.reconciliations) Error.reconciliation_id_conflict
  raise_if (any (repeats_reconciliation_operation r) s.reconciliations)
      Error.reconciliation_operation_conflict
  raise_if (any (λ q. r.adjustment_transaction_id == q.adjustment_transaction_id) s.reconciliations)
      Error.integrity_error
  ok (record s { reconciliations = r ∷ s.reconciliations })

abbrev pub reconciliation_conflict : Option Constraint → Result (Unit {0})
reconciliation_conflict none = ok tt
reconciliation_conflict (some Constraint.primary_key) = err Error.reconciliation_id_conflict
reconciliation_conflict (some Constraint.client_operation) =
    err Error.reconciliation_operation_conflict
reconciliation_conflict (some Constraint.second_reversal) = err Error.integrity_error

-- `AccountEffect.INFLOW if preview.delta.amount > 0 else AccountEffect.OUTFLOW`.
abbrev pub adjustment_effect : ℤ → AccountEffect
adjustment_effect delta =
    if ltb_ℤ (pos 0) delta then AccountEffect.inflow else AccountEffect.outflow

-- `SHA-256` and `uuid5` are parameters.
module _ (digest : ReconciliationSource → Text) (uuid5 : ℕ → Text → ℕ) (now : Instant)
    (user : ℕ) where
  -- The account with the checks on it.
  unfoldable pub check_reconciliation :
      ReconciliationPreviewCommand → Instant → Store → Result AccountModel
  unfolding get_account
  check_reconciliation command effective_at s = do
    account ← or_raise (get_account command.account_id user s) Error.account_not_found
    raise_if (not (is_active account.status)) (status_code account.status)
    raise_if (not (text_eq command.actual_balance.currency account.currency))
        Error.currency_mismatch
    raise_if (ltb_ℤ effective_at account.opened_at) Error.transaction_before_account_opened
    raise_if (ltb_ℤ command.actual_balance.amount (pos 0) && not account.allow_negative)
        Error.negative_balance_not_allowed
    ok account

  -- `_evaluate_reconciliation`.
  unfoldable pub evaluate_reconciliation :
      ReconciliationPreviewCommand → Store → Result (AccountModel × ReconciliationPreview Text)
  unfolding normalize_timestamp require_not_future check_reconciliation get_balance
      preview_reconciliation plus
  evaluate_reconciliation command s = do
    effective_at ← normalize_timestamp command.effective_at
    require_not_future effective_at now
    account ← check_reconciliation command effective_at s
    found ← get_balance account.id user effective_at s
    calculated_balance ← or_raise found Error.account_not_found
    preview ←
        preview_reconciliation digest account.id (pos account.version) calculated_balance
          command.actual_balance (Datetime.aware effective_at (pos 0))
    current ← get_balance account.id user (max_instant now effective_at) s
    current_balance ← or_raise current Error.account_not_found
    projected ← plus current_balance preview.delta
    raise_if (ltb_ℤ projected.amount (pos 0) && not account.allow_negative)
        Error.negative_balance_not_allowed
    ok (account, preview)

  abbrev pub adjustment_row :
      CommitReconciliationCommand
      → AccountModel
      → ReconciliationPreview Text
      → Money
      → Option Text
      → TransactionModel
  adjustment_row command account preview amount reason =
      build_posted_movement command.adjustment_transaction_id user account
        TransactionKind.reconciliation_adjustment (adjustment_effect preview.delta.amount) amount
        preview.effective_at (some (text "Balance reconciliation")) reason
        (uuid5 command.client_operation_id (text "reconciliation-adjustment"))

  unfoldable pub commit_reconciliation_in_transaction :
      CommitReconciliationCommand → Store → Result Store
  unfolding evaluate_reconciliation text_eq normalize_optional_text in_range violated
      build_posted_movement insert_reconciliation add_audit_event
  commit_reconciliation_in_transaction command s = do
    (account, preview) ← evaluate_reconciliation command.preview s
    raise_if (not (text_eq preview.source_fingerprint command.source_fingerprint))
        Error.stale_balance
    raise_if (eqb_ℤ preview.delta.amount (pos 0)) Error.no_reconciliation_needed
    reason ← normalize_optional_text command.reason TextField.other_text 2000
    amount ← in_range (pos (magnitude preview.delta.amount)) preview.delta.currency
    let adjustment = adjustment_row command account preview amount reason
    reconciliation_conflict (violated adjustment s)
    let bumped = with_account (bump_account account) (with_transaction adjustment s)
    stored ←
        insert_reconciliation
          (record {
            id = command.id;
            user_id = user;
            account_id = account.id;
            calculated_balance = preview.calculated_balance.amount;
            actual_balance = preview.actual_balance.amount;
            delta = preview.delta.amount;
            effective_at = preview.effective_at;
            reason = reason;
            adjustment_transaction_id = command.adjustment_transaction_id;
            source_fingerprint = preview.source_fingerprint;
            client_operation_id = command.client_operation_id;
            version = 1;
          })
          bumped
    ok (
        add_audit_event user AuditAction.commit_reconciliation command.id
          command.client_operation_id stored)
