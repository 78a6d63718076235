-- ===== src/Store/Movement.antt =====
-- `build_posted_movement` (backend/app/application/ledger_posting.py), and adding a row of
-- transactions with the unique constraints of the table.
use plan_it.Common.{
  if◌then◌else◌, ◌∷◌, ◌+◌, some, none, false, ℕ, Bool, ◌==◌, Option, is_some, ◌&&◌, any,
}
use plan_it.Common.Time.{Instant}
use plan_it.Common.Text.{Text}
use plan_it.Store.{TransactionModel, AccountModel, Store, transaction_key}
use plan_it.Ledger.Enums.{TransactionKind, AccountEffect, TransactionStatus}
use plan_it.Store.Table.{put, find}
use plan_it.Store.Balance.{account_key}
use plan_it.Money.{Money}

-- The constraints that a new row can violate.
pub data Constraint : Type 0 where
  primary_key client_operation second_reversal : Constraint

unfoldable pub build_posted_movement :
    (id user : ℕ)
    → AccountModel
    → TransactionKind
    → AccountEffect
    → Money
    → Instant
    → Option Text
    → Option Text
    → ℕ
    → TransactionModel
build_posted_movement id user account kind effect amount occurred_at counterparty note operation =
    record {
      id = id;
      user_id = user;
      account_id = account.id;
      kind = kind;
      effect = effect;
      amount = amount.amount;
      currency = amount.currency;
      occurred_at = occurred_at;
      status = TransactionStatus.posted;
      category_id = none;
      merchant_id = none;
      merchant_location_id = none;
      counterparty = counterparty;
      note = note;
      parent_transaction_id = none;
      reversal_of_id = none;
      client_operation_id = operation;
      version = 1;
    }

-- `uq_transactions_user_client_operation`.
abbrev pub repeats_operation : TransactionModel → TransactionModel → Bool
repeats_operation t u = t.user_id == u.user_id && t.client_operation_id == u.client_operation_id

-- `uq_transactions_reversal_of_id`.
abbrev pub repeats_reversal : TransactionModel → TransactionModel → Bool
repeats_reversal t u = elim t.reversal_of_id [
  | none ↦ false
  | some k ↦ elim u.reversal_of_id [ none ↦ false | some j ↦ k == j ]
]

unfoldable pub violated : TransactionModel → Store → Option Constraint
violated t s =
    if is_some (find transaction_key t.id s.transactions)
    then some Constraint.primary_key
    else if any (repeats_operation t) s.transactions
    then some Constraint.client_operation
    else if any (repeats_reversal t) s.transactions
    then some Constraint.second_reversal
    else none

abbrev pub with_transaction : TransactionModel → Store → Store
with_transaction t s = record s { transactions = t ∷ s.transactions }

-- `account.version += 1`.
abbrev pub bump_account : AccountModel → AccountModel
bump_account a = record a { version = a.version + 1 }

abbrev pub with_account : AccountModel → Store → Store
with_account a s = record s { accounts = put account_key a s.accounts }
