-- ===== src/Services/Corrections/Tests.antt =====
-- A reconciliation that lowers a balance, at concrete inputs.
use plan_it.Common.{◌∷◌, ◌≡◌, refl, ◌+◌, some, none, [], ok, ℕ, ◌*◌, length}
use plan_it.Common.Text.{Text, text}
use plan_it.Common.Time.{Instant, Datetime}
use plan_it.Common.Int.{pos, ◌-ℤ◌, ◌+ℤ◌, negsuc}
use plan_it.Services.Corrections.{CommitReconciliationCommand, commit_reconciliation_in_transaction}
use plan_it.Store.{Store, AccountModel, AuditAction}
use plan_it.Ledger.Reconciliation.{ReconciliationSource}
use plan_it.Services.Fixtures.{opened, purse, logged}
use plan_it.Store.Table.{find, put}
use plan_it.Store.Balance.{get_account, movement_total}
use plan_it.Store.Movement.{bump_account, build_posted_movement}
use plan_it.Ledger.Policies.{normalize_timestamp}
use plan_it.Ledger.Enums.{TransactionKind, AccountEffect}
use plan_it.Services.Corrections.Reconciled.{commit_reconciliation-balance}

abbrev sealed : ReconciliationSource → Text
sealed source = text "f"

abbrev keyed : ℕ → Text → ℕ
keyed id label = id * 1000 + length label

abbrev count : CommitReconciliationCommand
count = record {
  id = 70;
  client_operation_id = 71;
  adjustment_transaction_id = 72;
  preview = record {
    account_id = 1;
    actual_balance = record { amount = pos 900_000; currency = text "USD" };
    effective_at = Datetime.aware (pos 80) (pos 10);
  };
  source_fingerprint = text "f";
  reason = none;
}

abbrev adjusted : Store
adjusted = record opened {
  accounts = bump_account purse ∷ [];
  transactions =
      build_posted_movement 72 7 purse TransactionKind.reconciliation_adjustment
        AccountEffect.outflow (record { amount = pos 100_000; currency = text "USD" }) (pos 70)
        (some (text "Balance reconciliation")) none 71_025
      ∷ [];
  reconciliations =
      record {
        id = 70;
        user_id = 7;
        account_id = 1;
        calculated_balance = pos 1_000_000;
        actual_balance = pos 900_000;
        delta = negsuc 99_999;
        effective_at = pos 70;
        reason = none;
        adjustment_transaction_id = 72;
        source_fingerprint = text "f";
        client_operation_id = 71;
        version = 1;
      }
      ∷ [];
  audit = logged AuditAction.commit_reconciliation 70 (some 71) ∷ [];
}

reconciliation_run :
    commit_reconciliation_in_transaction sealed keyed (pos 100) 7 count opened ≡ ok adjusted
unfolding commit_reconciliation_in_transaction find put ◌-ℤ◌ ◌+ℤ◌ movement_total
reconciliation_run = refl

commit_reconciliation-balance_example :
    (account : AccountModel) × (at : Instant) × (get_account count.preview.account_id 7 opened
      ≡ some account)
    × (normalize_timestamp count.preview.effective_at ≡ ok at)
    × (account.opening_balance +ℤ movement_total 7 account.id at adjusted.transactions
        ≡ count.preview.actual_balance.amount)
commit_reconciliation-balance_example =
    commit_reconciliation-balance sealed keyed (pos 100) 7 count opened reconciliation_run
