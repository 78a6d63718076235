-- ===== src/Services/Transactions/Reversal.antt =====
-- `reverse_in_transaction`.
use plan_it.Common.{
  ◌>>◌, ◌>>=◌, ◌+◌, some, none, ok, true, Error, Result, ℕ, Option, or_raise, dedup, raise_if,
}
use plan_it.Common.Time.{Datetime, Instant}
use plan_it.Common.Text.{Text}
use plan_it.Common.Int.{ltb_ℤ}
use plan_it.Store.{TransactionModel, Store, add_audit_event, AccountModel, AuditAction}
use plan_it.Ledger.Enums.{AccountEffect, TransactionStatus, TransactionKind}
use plan_it.Ledger.Policies.{
  require_reversible, normalize_optional_text, normalize_timestamp, require_not_future, TextField,
}
use plan_it.Services.Transactions.Checks.{
  get_transaction, insert_transaction, tag_ids_of, require_transaction_account, replace_tags,
  require_version, update_transaction,
}
use plan_it.Money.{money}
use plan_it.Store.Balance.{require_projected_balance}
use plan_it.Store.Movement.{with_account, bump_account}
use plan_it.Services.Transactions.Posting.{row_money}

pub record ReverseTransactionCommand : Type 0 where
  pub id : ℕ
  pub client_operation_id : ℕ
  pub version : ℕ
  pub occurred_at : Datetime
  pub note : Option Text

abbrev pub reversal_effect : AccountEffect → AccountEffect
reversal_effect AccountEffect.inflow = AccountEffect.outflow
reversal_effect AccountEffect.outflow = AccountEffect.inflow

-- The row that is added; it becomes `POSTED` with the second flush.
abbrev pub reversal_row :
    ℕ → TransactionModel → ReverseTransactionCommand → Instant → Option Text → TransactionModel
reversal_row user original command occurred_at note = record {
  id = command.id;
  user_id = user;
  account_id = original.account_id;
  kind = TransactionKind.reversal;
  effect = reversal_effect original.effect;
  amount = original.amount;
  currency = original.currency;
  occurred_at = occurred_at;
  status = TransactionStatus.draft;
  category_id = original.category_id;
  merchant_id = none;
  merchant_location_id = none;
  counterparty = original.counterparty;
  note = note;
  parent_transaction_id = some original.id;
  reversal_of_id = some original.id;
  client_operation_id = command.client_operation_id;
  version = 1;
}

abbrev pub reversed_row : TransactionModel → TransactionModel
reversed_row t = record t { status = TransactionStatus.reversed; version = t.version + 1 }

module _ (now : Instant) (user : ℕ) where
  unfoldable pub check_reverse :
      TransactionModel → ReverseTransactionCommand → Store → Result (AccountModel × Instant)
  unfolding require_reversible normalize_timestamp require_not_future money
      require_transaction_account require_projected_balance
  check_reverse original command s = do
    require_version original.version command.version
    require_reversible original.status original.kind
    occurred_at ← normalize_timestamp command.occurred_at
    require_not_future occurred_at now
    raise_if (ltb_ℤ occurred_at original.occurred_at) Error.reversal_before_original
    amount ← row_money original
    account ← require_transaction_account original.account_id user amount true s
    require_projected_balance account user amount (reversal_effect original.effect) occurred_at now
        s
    ok (account, occurred_at)

  -- The first flush adds the draft; the second writes the three statuses and versions.
  unfoldable pub write_reversal :
      TransactionModel → ReverseTransactionCommand → AccountModel → Instant → Store → Result Store
  unfolding normalize_optional_text insert_transaction tag_ids_of dedup replace_tags add_audit_event
  write_reversal original command account occurred_at s = do
    note ← normalize_optional_text command.note TextField.other_text 2000
    let tags = dedup (tag_ids_of original.id s.transaction_tags)
    let reversal = reversal_row user original command occurred_at note
    added ← insert_transaction reversal s
    let tagged = replace_tags reversal.id user tags added
    let written =
        update_transaction (record reversal { status = TransactionStatus.posted })
          (update_transaction (reversed_row original) tagged)
    ok (
        add_audit_event user AuditAction.reverse_event original.id command.client_operation_id
          (with_account (bump_account account) written))

  unfoldable pub reverse_transaction : ℕ → ReverseTransactionCommand → Store → Result Store
  unfolding get_transaction check_reverse write_reversal
  reverse_transaction id command s = do
    original ← or_raise (get_transaction id user s) Error.transaction_not_found
    (account, occurred_at) ← check_reverse original command s
    write_reversal original command account occurred_at s
