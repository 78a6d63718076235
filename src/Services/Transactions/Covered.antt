-- ===== src/Services/Transactions/Covered.antt =====
-- What the check of the balance gives a posting.
use plan_it.Common.{◌≡◌, arith, some, ok, false, ℕ, subst, sym, ◌∙◌, ap}
use plan_it.Common.Time.{Instant, max_instant}
use plan_it.Common.Int.{pos, ◌≤ℤ◌, ◌+ℤ◌, neg, ℤ, ◌-ℤ◌, -ℤ-eq, +ℤ_assoc}
use plan_it.Money.{money, Money, scale}
use plan_it.Services.Transactions.Posting.{PostTransactionCommand, row_money, post, posted_row}
use plan_it.Store.{TransactionModel, Store, AccountModel}
use plan_it.Money.Exact.{rescale_self}
use plan_it.Services.Transactions.Checks.{get_transaction}
use plan_it.Store.Balance.{get_account, movement_total, account_key, require_projected_balance}
use plan_it.Ledger.Enums.{AccountEffect}
use plan_it.Services.Transactions.Effect.{post-IsPosted, get_transaction-find}
use plan_it.Store.Totals.{counted}
use plan_it.Store.Table.{find, find-key}
use plan_it.Store.Overdraft.{require_projected_balance-covers}
use plan_it.Services.Transactions.Balances.{post-movement_total-at}

-- The amount of a row is read back as it was written.
row_money-amount : (m : TransactionModel) {a : Money} → row_money m ≡ ok a → a.amount ≡ m.amount
unfolding money
row_money-amount m h = ground (arith, rescale_self m.amount scale)

pub left_over : (o m a b t : ℤ) → a ≡ b → t ≡ m +ℤ neg b → (o +ℤ m) -ℤ a ≡ o +ℤ t
left_over o m a b t e f =
    -ℤ-eq (o +ℤ m) a
    ∙ (+ℤ_assoc o m (neg a) ∙ (ap (λ x. o +ℤ (m +ℤ neg x)) e ∙ ap (λ x. o +ℤ x) (sym f)))

module _ (now : Instant) (user : ℕ) where
  counted-outflow :
      (m : TransactionModel) (account : ℕ)
      → m.user_id ≡ user
      → m.account_id ≡ account
      → m.effect ≡ AccountEffect.outflow
      → counted user account (max_instant now m.occurred_at) (posted_row m) ≡ neg m.amount
  counted-outflow m account owner own out = ground arith

  get_account-own :
      (id : ℕ) (s : Store) {a : AccountModel}
      → get_account id user s ≡ some a
      → (id ≡ a.id) × (get_account a.id user s ≡ some a)
  unfolding get_account
  get_account-own id s {a} h =
      let held : find account_key id s.accounts ≡ some a = ground arith in
      let e = find-key account_key id s.accounts held in
      (sym e, subst (λ k. get_account k user s ≡ some a) (sym e) h)

  -- Posting an outflow that succeeds on an account that allows no negative balance leaves the
  -- balance of the account, at the later of the present and the moment of the outflow, not negative.
  pub post-covers :
      (id : ℕ) (command : PostTransactionCommand) (operation : ℕ) (s : Store) {t : Store}
      → post now user id command operation s ≡ ok t
      → (model : TransactionModel) × (account : AccountModel) × (get_transaction id user s
          ≡ some model)
        × (get_account model.account_id user s ≡ some account)
        × (account.allow_negative ≡ false
            → model.effect ≡ AccountEffect.outflow
            → pos 0
              ≤ℤ account.opening_balance
                +ℤ movement_total user account.id
                    (max_instant now model.occurred_at)
                    t.transactions)
  post-covers id command operation s {t} h =
      let p = post-IsPosted now user id command operation s h in
      (
        p.model,
        p.account,
        p.owned,
        p.owned_account,
        λ strict out.
            let (_, owner) = get_transaction-find id user s p.owned in
            let (own, named) = get_account-own p.model.account_id s p.owned_account in
            let as_of = max_instant now p.model.occurred_at in
            let projected : require_projected_balance p.account user p.amount AccountEffect.outflow
                  p.model.occurred_at now s
                ≡ ok tt =
              subst
                (λ e.
                  require_projected_balance p.account user p.amount e p.model.occurred_at now s
                  ≡ ok tt)
                out p.projected in
            let enough =
              require_projected_balance-covers p.account user p.amount p.model.occurred_at now s
                named strict projected in
            let total =
              post-movement_total-at now user id s p p.account.id as_of
              ∙ ap (λ c. movement_total user p.account.id as_of s.transactions +ℤ c)
                  (counted-outflow p.model p.account.id owner own out) in
            let priced = row_money-amount p.model p.priced in
            subst (λ b. pos 0 ≤ℤ b) (left_over _ _ p.amount.amount p.model.amount _ priced total)
              enough,
      )
