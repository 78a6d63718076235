-- ===== src/Services/Transfers/Commit.antt =====
-- `commit_in_transaction`: the movements and the row of a transfer.
use plan_it.Common.{
  ◌>>◌, ◌>>=◌, ◌∷◌, some, none, [], ok, err, false, Error, Result, not, ℕ, Option, List, Bool,
  raise_if, ◌==◌, mem, ◌||◌, ◌&&◌, any, dedup,
}
use plan_it.Common.Text.{Text, text_eq, text}
use plan_it.Common.Time.{Instant}
use plan_it.Store.Movement.{
  violated, Constraint, with_account, with_transaction, bump_account, build_posted_movement,
}
use plan_it.Services.Transfers.Evaluate.{
  account_of, evaluate, CommitTransferCommand, listed, transfer_accounts,
}
use plan_it.Store.Rows.{TransferModel}
use plan_it.Store.{AccountModel, TransactionModel, Store, add_audit_event, AuditAction}
use plan_it.Ledger.Reallocation.{FingerprintPart}
use plan_it.Services.Planning.Due.{same_transaction}
use plan_it.Ledger.Policies.{normalize_optional_text, normalize_timestamp, TextField}
use plan_it.Ledger.Transfer.{TransferPreview, TransferFee}
use plan_it.Ledger.Enums.{TransactionKind, AccountEffect}

-- The identifiers of an operation are distinct.
abbrev pub has_repeated : List ℕ → Bool
has_repeated [] = false
has_repeated (k ∷ ks) = mem k ks || has_repeated ks

-- A new movement, flushed, with the errors of `_flush`.
abbrev pub transfer_conflict : Option Constraint → Result (Unit {0})
transfer_conflict none = ok tt
transfer_conflict (some Constraint.primary_key) = err Error.transfer_id_conflict
transfer_conflict (some Constraint.client_operation) = err Error.transfer_operation_conflict
transfer_conflict (some Constraint.second_reversal) = err Error.integrity_error

unfoldable pub add_movement_row : TransactionModel → Store → Result Store
unfolding violated
add_movement_row t s = do transfer_conflict (violated t s); ok (with_transaction t s)

-- The loop that adds the movements, flushed.
unfoldable pub add_movement_rows : List TransactionModel → Store → Result Store
unfolding add_movement_row
add_movement_rows [] s = ok s
add_movement_rows (t ∷ ts) s = do next ← add_movement_row t s; add_movement_rows ts next

-- The unique constraints of the table.
abbrev pub repeats_transfer_id : TransferModel → TransferModel → Bool
repeats_transfer_id t u =
    t.id == u.id
    || (t.source_transaction_id == u.source_transaction_id
        || (t.destination_transaction_id == u.destination_transaction_id
            || same_transaction t.fee_transaction_id u.fee_transaction_id))

abbrev pub repeats_transfer_operation : TransferModel → TransferModel → Bool
repeats_transfer_operation t u =
    t.user_id == u.user_id && t.client_operation_id == u.client_operation_id

unfoldable pub insert_transfer : TransferModel → Store → Result Store
insert_transfer t s = do
  raise_if (any (repeats_transfer_id t) s.transfers) Error.transfer_id_conflict
  raise_if (any (repeats_transfer_operation t) s.transfers) Error.transfer_operation_conflict
  ok (record s { transfers = t ∷ s.transfers })

-- `accounts[account_id].version += 1` for each of the accounts.
unfoldable pub bump_accounts : List ℕ → List AccountModel → Store → Result Store
unfolding account_of
bump_accounts [] accounts s = ok s
bump_accounts (k ∷ ks) accounts s = do
  account ← account_of k accounts
  bump_accounts ks accounts (with_account (bump_account account) s)

-- `SHA-256` and `uuid5` are parameters.
module _ (digest : List FingerprintPart → Text) (uuid5 : ℕ → Text → ℕ) (now : Instant)
    (user : ℕ) where
  abbrev pub source_row :
      CommitTransferCommand
      → TransferPreview Text
      → AccountModel
      → AccountModel
      → Instant
      → Option Text
      → TransactionModel
  source_row command preview source destination at remark =
      build_posted_movement command.source_transaction_id user source TransactionKind.transfer_out
        AccountEffect.outflow preview.source_amount at (some destination.name) remark
        (uuid5 command.client_operation_id (text "transfer-source"))

  abbrev pub destination_row :
      CommitTransferCommand
      → TransferPreview Text
      → AccountModel
      → AccountModel
      → Instant
      → Option Text
      → TransactionModel
  destination_row command preview source destination at remark =
      build_posted_movement command.destination_transaction_id user destination
        TransactionKind.transfer_in AccountEffect.inflow preview.destination_amount at
        (some source.name) remark (uuid5 command.client_operation_id (text "transfer-destination"))

  abbrev pub fee_row :
      CommitTransferCommand
      → ℕ
      → TransferFee
      → AccountModel
      → Instant
      → Option Text
      → TransactionModel
  fee_row command id fee payer at remark =
      build_posted_movement id user payer TransactionKind.transfer_fee AccountEffect.outflow
        fee.amount at (some (text "Transfer fee")) remark
        (uuid5 command.client_operation_id (text "transfer-fee"))

  -- The movement of the fee, of a preview with a fee and an identifier for it.
  unfoldable pub fee_rows :
      CommitTransferCommand
      → Option TransferFee
      → Option ℕ
      → List AccountModel
      → Instant
      → Option Text
      → Result (List TransactionModel)
  unfolding account_of build_posted_movement
  fee_rows command none none accounts at remark = ok []
  fee_rows command none (some id) accounts at remark = err Error.unexpected_fee_transaction_id
  fee_rows command (some fee) none accounts at remark = err Error.fee_transaction_id_required
  fee_rows command (some fee) (some id) accounts at remark = do
    payer ← account_of fee.account_id accounts
    ok (fee_row command id fee payer at remark ∷ [])

  -- The part of `commit_in_transaction` that writes.
  unfoldable pub write_transfer :
      CommitTransferCommand
      → List AccountModel
      → TransferPreview Text
      → Option ℕ
      → Store
      → Result Store
  unfolding normalize_optional_text normalize_timestamp account_of fee_rows add_movement_rows
      insert_transfer bump_accounts add_audit_event dedup
  write_transfer command accounts preview session s = do
    remark ← normalize_optional_text command.note TextField.other_text 2000
    at ← normalize_timestamp command.preview.occurred_at
    source ← account_of command.preview.source_account_id accounts
    destination ← account_of command.preview.destination_account_id accounts
    fees ← fee_rows command preview.fee command.fee_transaction_id accounts at remark
    added ←
        add_movement_rows
          (source_row command preview source destination at remark
            ∷ (destination_row command preview source destination at remark ∷ fees))
          s
    stored ←
        insert_transfer
          (record {
            id = command.id;
            user_id = user;
            source_transaction_id = command.source_transaction_id;
            destination_transaction_id = command.destination_transaction_id;
            fee_transaction_id = command.fee_transaction_id;
            source_amount = preview.source_amount.amount;
            destination_amount = preview.destination_amount.amount;
            fx_rate = preview.fx_rate;
            reallocation_session_id = session;
            source_fingerprint = preview.source_fingerprint;
            client_operation_id = command.client_operation_id;
            version = 1;
          })
          added
    bumped ← bump_accounts (transfer_accounts command.preview) accounts stored
    ok (
        add_audit_event user AuditAction.commit_transfer command.id command.client_operation_id
          bumped)

  unfoldable pub commit_in_transaction : CommitTransferCommand → Option ℕ → Store → Result Store
  unfolding evaluate text_eq write_transfer
  commit_in_transaction command session s = do
    (accounts, preview) ← evaluate digest uuid5 now user command.preview s
    raise_if (not (text_eq preview.source_fingerprint command.source_fingerprint))
        Error.stale_balance
    raise_if
        (has_repeated (
          command.id
          ∷ (command.source_transaction_id
              ∷ (command.destination_transaction_id ∷ listed command.fee_transaction_id))))
        Error.duplicate_operation_id
    write_transfer command accounts preview session s
