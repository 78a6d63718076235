-- ===== src/Services/Transactions/Checks.antt =====
-- The guards that the methods of `TransactionService` share, on accounts, categories and tags, and
-- the flush of a transaction.
use plan_it.Common.{
  if◌then◌else◌, ◌>>◌, ◌>>=◌, ◌∷◌, some, none, [], ok, err, Error, Result, not, ℕ, List, raise_if,
  filter, Option, ltb, ◌==◌, length, Bool, or_raise, is_some, ◌&&◌, ◌++◌, mem, is_none,
}
use plan_it.Common.Time.{Instant}
use plan_it.Common.Text.{Text, text, text_eq}
use plan_it.Common.Int.{ltb_ℤ}
use plan_it.Store.Movement.{violated, Constraint, with_transaction}
use plan_it.Ledger.Enums.{TransactionKind, is_active}
use plan_it.Store.Rows.{CategoryModel, TransactionTagModel, TagModel}
use plan_it.Store.{TransactionModel, Store, AccountModel, transaction_key}
use plan_it.Catalog.{category_accepts}
use plan_it.Store.Balance.{get_account, status_code}
use plan_it.Store.Table.{put, find}
use plan_it.Money.{Money}

-- `TransactionRepository.get_owned`.
unfoldable pub get_transaction : ℕ → ℕ → Store → Option TransactionModel
get_transaction id user s = elim (find transaction_key id s.transactions) [
  | none ↦ none
  | some t ↦ if t.user_id == user then some t else none
]

-- `_require_account`, with its argument `posting`.
unfoldable pub require_transaction_account : ℕ → ℕ → Money → Bool → Store → Result AccountModel
unfolding get_account
require_transaction_account id user money posting s = do
  account ← or_raise (get_account id user s) Error.account_not_found
  raise_if (not (text_eq account.currency money.currency)) Error.currency_mismatch
  raise_if (posting && not (is_active account.status)) (status_code account.status)
  ok account

-- The value of a transaction kind.
unfoldable pub transaction_value : TransactionKind → Text
transaction_value TransactionKind.expense = text "EXPENSE"
transaction_value TransactionKind.income = text "INCOME"
transaction_value TransactionKind.transfer_out = text "TRANSFER_OUT"
transaction_value TransactionKind.transfer_in = text "TRANSFER_IN"
transaction_value TransactionKind.transfer_fee = text "TRANSFER_FEE"
transaction_value TransactionKind.refund = text "REFUND"
transaction_value TransactionKind.loan_principal_out = text "LOAN_PRINCIPAL_OUT"
transaction_value TransactionKind.loan_principal_in = text "LOAN_PRINCIPAL_IN"
transaction_value TransactionKind.debt_repayment_in = text "DEBT_REPAYMENT_IN"
transaction_value TransactionKind.debt_repayment_out = text "DEBT_REPAYMENT_OUT"
transaction_value TransactionKind.reconciliation_adjustment = text "RECONCILIATION_ADJUSTMENT"
transaction_value TransactionKind.reversal = text "REVERSAL"

abbrev category_key : CategoryModel → ℕ
category_key c = c.id

-- `CatalogRepository.get_category`.
unfoldable pub get_category : ℕ → ℕ → Store → Option CategoryModel
get_category id user s = elim (find category_key id s.categories) [
  | none ↦ none
  | some c ↦ if c.user_id == user then some c else none
]

unfoldable pub require_category : ℕ → Option ℕ → TransactionKind → Bool → Store → Result (Unit {0})
unfolding get_category category_accepts transaction_value
require_category user none kind required s = raise_if required Error.category_required
require_category user (some id) kind required s = do
  category ← or_raise (get_category id user s) Error.category_not_found
  raise_if (is_some category.archived_at) Error.category_not_found
  raise_if (not (category_accepts category.kind (transaction_value kind)))
      Error.category_kind_mismatch

-- `CatalogRepository.get_active_tags`.
unfoldable pub active_tags : ℕ → List ℕ → Store → List TagModel
unfolding filter
active_tags user ids s =
    filter (λ t. t.user_id == user && (mem t.id ids && is_none t.archived_at)) s.tags

unfoldable pub require_tags : ℕ → List ℕ → Store → Result (Unit {0})
unfolding active_tags
require_tags user ids s = do
  raise_if (ltb 20 (length ids)) Error.too_many_tags
  raise_if (not (length (active_tags user ids s) == length ids)) Error.tag_not_found

abbrev pub require_occurs_after_opening : Instant → AccountModel → Result (Unit {0})
require_occurs_after_opening occurred_at account =
    raise_if (ltb_ℤ occurred_at account.opened_at) Error.transaction_before_account_opened

abbrev pub require_version : ℕ → ℕ → Result (Unit {0})
require_version current requested = raise_if (not (current == requested)) Error.version_conflict

-- The error of `_flush_transaction` for a constraint of the table.
abbrev pub conflict_code : Constraint → Error
conflict_code Constraint.primary_key = Error.transaction_id_conflict
conflict_code Constraint.client_operation = Error.transaction_operation_conflict
conflict_code Constraint.second_reversal = Error.transaction_already_reversed

-- `_flush_transaction` after a write that violates a constraint, or none.
abbrev pub flush_transaction : Option Constraint → Store → Result Store
flush_transaction none s = ok s
flush_transaction (some c) s = err (conflict_code c)

-- A new row of the table, flushed.
unfoldable pub insert_transaction : TransactionModel → Store → Result Store
unfolding violated
insert_transaction t s = flush_transaction (violated t s) (with_transaction t s)

abbrev pub update_transaction : TransactionModel → Store → Store
update_transaction t s = record s { transactions = put transaction_key t s.transactions }

-- `TransactionRepository.tag_ids`, `TransactionRepository.replace_tags`.
unfoldable pub tag_ids_of : ℕ → List TransactionTagModel → List ℕ
tag_ids_of id [] = []
tag_ids_of id (r ∷ rs) =
    let rest = tag_ids_of id rs in if r.transaction_id == id then r.tag_id ∷ rest else rest

abbrev pub tag_rows : ℕ → ℕ → List ℕ → List TransactionTagModel
tag_rows id user [] = []
tag_rows id user (k ∷ ks) =
    record { transaction_id = id; tag_id = k; user_id = user } ∷ tag_rows id user ks

unfoldable pub replace_tags : ℕ → ℕ → List ℕ → Store → Store
unfolding filter
replace_tags id user ids s = record s {
  transaction_tags =
      tag_rows id user ids
      ++ filter (λ r. not (r.transaction_id == id && r.user_id == user)) s.transaction_tags;
}
