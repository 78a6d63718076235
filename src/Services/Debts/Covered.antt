-- ===== src/Services/Debts/Covered.antt =====
-- What the check of the balance gives a repayment.
use plan_it.Common.{
  if◌then◌else◌, ◌≡◌, arith, refl, some, ok, false, not, ℕ, ◌==◌, ◌&&◌, subst, sym, ◌∙◌, ap,
}
use plan_it.Common.Time.{Instant, max_instant}
use plan_it.Common.Text.{Text}
use plan_it.Common.Int.{ℤ, ltb_ℤ, pos, neg, ◌≤ℤ◌, ◌+ℤ◌, +ℤ_comm}
use plan_it.Debts.{DebtDirection}
use plan_it.Services.Debts.{repayment_effect, RepayDebtCommand, repay}
use plan_it.Ledger.Enums.{AccountEffect}
use plan_it.Store.{Store, DebtModel, AccountModel}
use plan_it.Store.Debts.{get_debt}
use plan_it.Services.Debts.Posting.{repayment_change, get_account-id, repay-movement_total-at}
use plan_it.Store.Balance.{get_account, movement_total, require_projected_balance}
use plan_it.Ledger.Policies.{normalize_timestamp}
use plan_it.Services.Debts.Effect.{repay-IsRepaid}
use plan_it.Store.Overdraft.{require_projected_balance-covers}
use plan_it.Services.Transactions.Covered.{left_over}

repays_outflow :
    (d : DebtDirection) → d ≡ DebtDirection.payable → repayment_effect d ≡ AccountEffect.outflow
repays_outflow d h = ground arith

-- At the later of the present and its own moment a payment of a payable debt counts.
paid_by_then :
    (now paid_at : Instant) (id : ℕ) (d : DebtDirection) (amount : ℤ)
    → d ≡ DebtDirection.payable
    → (if id == id && not (ltb_ℤ (max_instant now paid_at) paid_at)
        then repayment_change d amount
        else pos 0)
      ≡ neg amount
paid_by_then now paid_at id d amount h = ground arith

module _ (uuid5 : ℕ → Text → ℕ) (now : Instant) (user : ℕ) where
  -- Paying back borrowed money from an account that allows no negative balance leaves, where it
  -- succeeds, the balance of the account at the later of the present and the moment of the payment
  -- not negative.
  pub repay-covers :
      (debt_id : ℕ) (command : RepayDebtCommand) (s : Store) {t : Store}
      → repay uuid5 now user debt_id command s ≡ ok t
      → (debt : DebtModel) × (account : AccountModel) × (paid_at : Instant) × (get_debt debt_id user
            s
          ≡ some debt)
        × (get_account command.account_id user s ≡ some account)
        × (normalize_timestamp command.paid_at ≡ ok paid_at)
        × (account.allow_negative ≡ false
            → debt.direction ≡ DebtDirection.payable
            → pos 0
              ≤ℤ account.opening_balance
                +ℤ movement_total user account.id (max_instant now paid_at) t.transactions)
  repay-covers debt_id command s h =
      let (debt, account, paid_at, checked, written) =
        repay-IsRepaid uuid5 now user debt_id command s h in
      (
        debt,
        account,
        paid_at,
        checked.owned,
        checked.owned_account,
        checked.dated,
        λ strict payable.
            let as_of = max_instant now paid_at in
            let place = get_account-id command.account_id user s checked.owned_account in
            let named : get_account account.id user s ≡ some account =
              subst (λ k. get_account k user s ≡ some account) (sym place) checked.owned_account in
            let projected : require_projected_balance account user command.amount
                  AccountEffect.outflow paid_at now s
                ≡ ok tt =
              subst
                (λ e. require_projected_balance account user command.amount e paid_at now s ≡ ok tt)
                (repays_outflow debt.direction payable) written.projected in
            let enough =
              require_projected_balance-covers account user command.amount paid_at now s named
                strict projected in
            let paid =
              paid_by_then now paid_at account.id debt.direction command.amount.amount payable in
            let total =
              repay-movement_total-at uuid5 now user debt_id command s checked written account.id
                as_of
              ∙ ap (λ c. c +ℤ movement_total user account.id as_of s.transactions)
                  (subst
                    (λ k.
                      (if k == account.id && not (ltb_ℤ as_of paid_at)
                        then repayment_change debt.direction command.amount.amount
                        else pos 0)
                      ≡ neg command.amount.amount)
                    place paid) in
            subst (λ b. pos 0 ≤ℤ b)
              (left_over _ _ command.amount.amount command.amount.amount _ refl
                (total ∙ +ℤ_comm _ _))
              enough,
      )
