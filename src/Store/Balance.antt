-- ===== src/Store/Balance.antt =====
-- `AccountRepository.get_snapshot` (backend/app/infrastructure/repositories/accounts.py): the opening
-- balance and the sum of the movements that count up to a moment.
use plan_it.Common.{
  if◌then◌else◌, ◌>>◌, ◌>>=◌, ◌∷◌, some, none, [], ok, Error, Result, not, ℕ, List, Option, Bool,
  or_raise, ◌||◌, ◌==◌, raise_if, ◌&&◌,
}
use plan_it.Common.Time.{Instant, max_instant}
use plan_it.Common.Int.{ℤ, pos, ◌+ℤ◌, neg, ltb_ℤ}
use plan_it.Common.Text.{text_eq}
use plan_it.Store.{AccountModel, Store, TransactionModel}
use plan_it.Ledger.Enums.{AccountStatus, AccountEffect, is_inflow, affects_balance, is_active}
use plan_it.Money.{in_range, Money, minus}
use plan_it.Store.Table.{find}

-- The rows that the query selects.
abbrev pub is_counted : ℕ → ℕ → Instant → TransactionModel → Bool
is_counted user account as_of t =
    (t.user_id == user && t.account_id == account)
    && (affects_balance t.status && not (ltb_ℤ as_of t.occurred_at))

-- `case((effect == "INFLOW", amount), else_=-amount)`.
abbrev pub signed_amount : TransactionModel → ℤ
signed_amount t = if is_inflow t.effect then t.amount else neg t.amount

-- `coalesce(sum(signed_amount), 0)`.
unfoldable pub movement_total : ℕ → ℕ → Instant → List TransactionModel → ℤ
movement_total user account as_of [] = pos 0
movement_total user account as_of (t ∷ ts) =
    (if is_counted user account as_of t then signed_amount t else pos 0)
    +ℤ movement_total user account as_of ts

abbrev pub account_key : AccountModel → ℕ
account_key a = a.id

-- `get_owned`.
unfoldable pub get_account : ℕ → ℕ → Store → Option AccountModel
get_account id user s = elim (find account_key id s.accounts) [
  | none ↦ none
  | some a ↦ if a.user_id == user then some a else none
]

-- `get_snapshot`, of which the callers use the balance.
unfoldable pub get_balance : ℕ → ℕ → Instant → Store → Result (Option Money)
unfolding get_account in_range
get_balance id user as_of s = elim (get_account id user s) [
  | none ↦ ok none
  | some a ↦ do
    balance ← in_range (a.opening_balance +ℤ movement_total user id as_of s.transactions) a.currency
    ok (some balance)
]

-- `_require_projected_balance` of the services: the checks before a posting of `amount`.
unfoldable pub require_projected_balance :
    AccountModel → ℕ → Money → AccountEffect → Instant → Instant → Store → Result (Unit {0})
require_projected_balance account user amount effect effective_at now s =
    if account.allow_negative || is_inflow effect then ok tt else do
      found ← get_balance account.id user (max_instant now effective_at) s
      balance ← or_raise found Error.account_not_found
      projected ← minus balance amount
      raise_if (ltb_ℤ projected.amount (pos 0)) Error.negative_balance_not_allowed

-- The code for an account that accepts no postings.
abbrev pub status_code : AccountStatus → Error
status_code AccountStatus.closed = Error.account_closed
status_code _ = Error.account_read_only

-- `_require_account` for a posting: the account of the user, in the currency, and active.
unfoldable pub require_account : ℕ → ℕ → Money → Store → Result AccountModel
unfolding get_account
require_account id user money s = do
  account ← or_raise (get_account id user s) Error.account_not_found
  raise_if (not (text_eq account.currency money.currency)) Error.currency_mismatch
  raise_if (not (is_active account.status)) (status_code account.status)
  ok account
