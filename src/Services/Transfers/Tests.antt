-- ===== src/Services/Transfers/Tests.antt =====
-- A transfer with a fee, at concrete inputs.
use plan_it.Common.{◌∷◌, ◌≡◌, refl, ◌+◌, some, none, [], ok, ℕ, List, ◌*◌, length}
use plan_it.Common.Text.{Text, text}
use plan_it.Common.Int.{pos, ◌+ℤ◌, ◌-ℤ◌}
use plan_it.Common.Time.{Instant, Datetime}
use plan_it.Store.{AccountModel, Store, TransactionModel, AuditAction}
use plan_it.Services.Transfers.Evaluate.{CommitTransferCommand, evaluate}
use plan_it.Services.Transfers.Commit.{commit_in_transaction}
use plan_it.Ledger.Enums.{TransactionKind, AccountEffect}
use plan_it.Services.Fixtures.{purse, opened, logged}
use plan_it.Store.Movement.{bump_account, build_posted_movement}
use plan_it.Ledger.Reallocation.{FingerprintPart}
use plan_it.Ledger.Transfer.{TransferPreview}
use plan_it.Ledger.Policies.{normalize_timestamp}
use plan_it.Store.Balance.{movement_total}
use plan_it.Services.Transfers.Committed.{commit-movement_total, balance_change}
use plan_it.Store.Table.{find, put}

abbrev bank : AccountModel
bank = record purse { id = 2; name = text "Bank"; opening_balance = pos 0 }

abbrev two_accounts : Store
two_accounts = record opened { accounts = purse ∷ (bank ∷ []) }

abbrev mark : List FingerprintPart → Text
mark parts = text "f"

abbrev derived : ℕ → Text → ℕ
derived id label = id * 1000 + length label

abbrev order : CommitTransferCommand
order = record {
  id = 60;
  client_operation_id = 61;
  source_transaction_id = 62;
  destination_transaction_id = 63;
  fee_transaction_id = some 64;
  preview = record {
    source_account_id = 1;
    destination_account_id = 2;
    source_amount = record { amount = pos 400_000; currency = text "USD" };
    destination_amount = none;
    fx_rate = none;
    fee_account_id = some 1;
    fee_amount = some (record { amount = pos 10_000; currency = text "USD" });
    occurred_at = Datetime.aware (pos 80) (pos 10);
  };
  source_fingerprint = text "f";
  note = none;
}

abbrev moved_row :
    ℕ → AccountModel → TransactionKind → AccountEffect → ℕ → Text → ℕ → TransactionModel
moved_row id account kind effect units name operation =
    build_posted_movement id 7 account kind effect
      (record { amount = pos units; currency = text "USD" }) (pos 70) (some name) none operation

abbrev transferred : Store
transferred = record two_accounts {
  accounts = bump_account purse ∷ (bump_account bank ∷ []);
  transactions =
      moved_row 64 purse TransactionKind.transfer_fee AccountEffect.outflow 10_000
        (text "Transfer fee") 61_012
      ∷ (moved_row 63 bank TransactionKind.transfer_in AccountEffect.inflow 400_000 (text "Purse")
            61_020
          ∷ (moved_row 62 purse TransactionKind.transfer_out AccountEffect.outflow 400_000
                (text "Bank") 61_015
              ∷ []));
  transfers =
      record {
        id = 60;
        user_id = 7;
        source_transaction_id = 62;
        destination_transaction_id = 63;
        fee_transaction_id = some 64;
        source_amount = pos 400_000;
        destination_amount = pos 400_000;
        fx_rate = none;
        reallocation_session_id = none;
        source_fingerprint = text "f";
        client_operation_id = 61;
        version = 1;
      }
      ∷ [];
  audit = logged AuditAction.commit_transfer 60 (some 61) ∷ [];
}

commit_run : commit_in_transaction mark derived (pos 100) 7 order none two_accounts ≡ ok transferred
unfolding commit_in_transaction ◌+ℤ◌ ◌-ℤ◌ movement_total find put
commit_run = refl

commit-movement_total_example :
    (accounts : List AccountModel) × (preview : TransferPreview Text) × (at : Instant) × (evaluate
        mark derived
        (pos 100)
        7
        order.preview
        two_accounts
      ≡ ok (accounts, preview))
    × (preview.source_fingerprint ≡ order.source_fingerprint)
    × (normalize_timestamp order.preview.occurred_at ≡ ok at)
    × ((account : ℕ) (as_of : Instant)
        → movement_total 7 account as_of transferred.transactions
          ≡ movement_total 7 account as_of two_accounts.transactions
            +ℤ balance_change order.preview preview at account as_of)
commit-movement_total_example =
    commit-movement_total mark derived (pos 100) 7 order none two_accounts commit_run
