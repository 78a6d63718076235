-- ===== src/Services/Debts/Posting.antt =====
-- What a repayment does to the balances of accounts.
use plan_it.Common.{if◌then◌else◌, ◌≡◌, arith, some, ok, not, ℕ, ◌==◌, ◌&&◌, ◌∙◌, ap}
use plan_it.Common.Text.{Text}
use plan_it.Common.Int.{ℤ, neg, pos, ltb_ℤ, ◌+ℤ◌}
use plan_it.Common.Time.{Instant}
use plan_it.Store.{TransactionModel, Store, AccountModel, DebtModel}
use plan_it.Store.Balance.{get_account, movement_total, is_counted, account_key, signed_amount}
use plan_it.Debts.{DebtDirection}
use plan_it.Services.Debts.{repayment_effect, RepayDebtCommand, repay}
use plan_it.Store.Table.{find, find-key}
use plan_it.Ledger.Enums.{TransactionStatus}
use plan_it.Ledger.Policies.{normalize_timestamp}
use plan_it.Services.Debts.Effect.{repay-IsRepaid, IsPayable, IsWritten}
use plan_it.Store.Debts.{get_debt}

-- Money lent comes back, money borrowed goes.
abbrev pub repayment_change : DebtDirection → ℤ → ℤ
repayment_change DebtDirection.receivable amount = amount
repayment_change DebtDirection.payable amount = neg amount

pub get_account-id :
    (k user : ℕ) (s : Store) {a : AccountModel} → get_account k user s ≡ some a → a.id ≡ k
unfolding get_account
get_account-id k user s {a} h =
    let held : find account_key k s.accounts ≡ some a = ground arith in
    find-key account_key k s.accounts held

counted_lem :
    (m : TransactionModel) (user k account : ℕ) (as_of paid_at : Instant)
    (direction : DebtDirection) (amount : ℤ)
    → m.user_id ≡ user
    → m.account_id ≡ k
    → m.amount ≡ amount
    → m.effect ≡ repayment_effect direction
    → m.status ≡ TransactionStatus.posted
    → m.occurred_at ≡ paid_at
    → (if is_counted user account as_of m then signed_amount m else pos 0) ≡ (
        if k == account && not (ltb_ℤ as_of paid_at)
        then repayment_change direction amount
        else pos 0)
counted_lem m user k account as_of paid_at direction amount a b c d e f = ground arith

module _ (uuid5 : ℕ → Text → ℕ) (now : Instant) (user : ℕ) where
  pub repay-movement_total-at :
      (debt_id : ℕ) (command : RepayDebtCommand) (s : Store) {t : Store} {debt : DebtModel}
      {account : AccountModel} {paid_at : Instant}
      → IsPayable uuid5 now user debt_id command s debt account paid_at
      → IsWritten uuid5 now user command debt account paid_at s t
      → (k : ℕ) (as_of : Instant)
      → movement_total user k as_of t.transactions
        ≡ (if command.account_id == k && not (ltb_ℤ as_of paid_at)
            then repayment_change debt.direction command.amount.amount
            else pos 0)
          +ℤ movement_total user k as_of s.transactions
  unfolding movement_total
  repay-movement_total-at debt_id command s {debt = debt} {paid_at = paid_at} checked written k
        as_of =
      let (at, amount, effect, status, owner, moment) = written.moved in
      let place = at ∙ get_account-id command.account_id user s checked.owned_account in
      ap (movement_total user k as_of) written.transactions_after
      ∙ ap (λ c. c +ℤ movement_total user k as_of s.transactions)
          (counted_lem written.movement user command.account_id k as_of paid_at debt.direction
            command.amount.amount owner place amount effect status moment)

  -- A repayment that succeeds changes the movements of the account it names by exactly its amount,
  -- from the moment of the payment on: up for a receivable debt, down for a payable one. The
  -- balances of all other accounts, and all earlier ones, stay as they were.
  pub repay-movement_total :
      (debt_id : ℕ) (command : RepayDebtCommand) (s : Store) {t : Store}
      → repay uuid5 now user debt_id command s ≡ ok t
      → (debt : DebtModel) × (paid_at : Instant) × (get_debt debt_id user s ≡ some debt)
        × (normalize_timestamp command.paid_at ≡ ok paid_at)
        × ((account : ℕ) (as_of : Instant)
            → movement_total user account as_of t.transactions
              ≡ (if command.account_id == account && not (ltb_ℤ as_of paid_at)
                  then repayment_change debt.direction command.amount.amount
                  else pos 0)
                +ℤ movement_total user account as_of s.transactions)
  repay-movement_total debt_id command s {t} h =
      let (debt, account, paid_at, checked, written) =
        repay-IsRepaid uuid5 now user debt_id command s h in
      (
        debt,
        paid_at,
        checked.owned,
        checked.dated,
        repay-movement_total-at debt_id command s checked written,
      )
