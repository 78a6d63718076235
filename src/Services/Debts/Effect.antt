-- ===== src/Services/Debts/Effect.antt =====
-- What a repayment that succeeds has checked and written.
use plan_it.Common.{
  ◌∷◌, ◌≡◌, arith, some, ok, false, Error, not, ℕ, >>=-eq-ok, or_raise, raise_if-eq-ok, is_some,
  ok-injective, any, or_raise-eq-ok, ◌∙◌, ap, sym, refl, ◌+◌, true, subst,
}
use plan_it.Common.Text.{text_eq, Text, text}
use plan_it.Common.Int.{pos, ◌<ℤ◌, ◌+ℤ◌, ltb_ℤ, ◌-ℤ◌, ◌≤ℤ◌, ℤ, -ℤ_parts, +ℤ_parts}
use plan_it.Common.Time.{Instant}
use plan_it.Services.Debts.{
  flush_movement, accepts_payment, RepayDebtCommand, repay, new_payment, check_repayment,
  repayment_effect, post_repayment, repayment_kind, person_name,
}
use plan_it.Store.{
  Store, DebtModel, AccountModel, TransactionModel, debt_key, DebtPaymentModel, payment_key,
  add_audit_event, AuditAction,
}
use plan_it.Money.{require_positive, Money}
use plan_it.Store.Balance.{get_account, require_account, account_key, require_projected_balance}
use plan_it.Store.Movement.{
  with_transaction, violated, with_account, bump_account, build_posted_movement,
}
use plan_it.Ledger.Enums.{is_active, TransactionStatus}
use plan_it.Store.Table.{put, find}
use plan_it.Debts.{DebtStatus, status_for}
use plan_it.Ledger.Policies.{
  normalize_timestamp, require_not_future, normalize_optional_text, TextField,
}
use plan_it.Store.Debts.{
  get_person, get_debt, insert_payment, paid_amount, repeats_payment, with_debt,
}

-- The steps of a repayment that write, once they have succeeded.
pub flush_movement-eq-ok :
    (m : TransactionModel) (s : Store) {t : Store}
    → flush_movement m s ≡ ok t
    → with_transaction m s ≡ t
unfolding flush_movement
flush_movement-eq-ok m s h =
    let (_, done) = raise_if-eq-ok (is_some (violated m s)) _ _ h in ok-injective done

insert_payment-eq-ok :
    (p : DebtPaymentModel) (s : Store) {t : Store}
    → insert_payment p s ≡ ok t
    → (is_some (find payment_key p.id s.payments) ≡ false)
      × (record s { payments = p ∷ s.payments } ≡ t)
unfolding insert_payment
insert_payment-eq-ok p s h =
    let (fresh, h₁) = raise_if-eq-ok (is_some (find payment_key p.id s.payments)) _ _ h in
    let (_, done) =
      raise_if-eq-ok (any (repeats_payment p.user_id p.client_operation_id) s.payments) _ _ h₁ in
    (fresh, ok-injective done)

require_positive-eq-ok :
    (m : Money) (code : Error) {n : Money} → require_positive m code ≡ ok n → pos 0 <ℤ m.amount
unfolding require_positive
require_positive-eq-ok m code h = ground arith

covered_lem :
    (original paid amount : ℤ)
    → ltb_ℤ (original -ℤ paid) amount ≡ false
    → (paid +ℤ amount) ≤ℤ original
covered_lem original paid amount h = grind (arith, -ℤ_parts, +ℤ_parts)

require_account-eq-ok :
    (id user : ℕ) (money : Money) (s : Store) {a : AccountModel}
    → require_account id user money s ≡ ok a
    → get_account id user s ≡ some a
unfolding require_account
require_account-eq-ok id user money s h =
    let (account, found, h₁) =
      >>=-eq-ok (or_raise (get_account id user s) Error.account_not_found) _ h in
    let (_, h₂) = raise_if-eq-ok (not (text_eq account.currency money.currency)) _ _ h₁ in
    let (_, h₃) = raise_if-eq-ok (not (is_active account.status)) _ _ h₂ in
    or_raise-eq-ok _ _ found ∙ ap some (ok-injective h₃)

-- The tables after the last steps of a repayment.
written_lem :
    (user entity operation : ℕ) (m : TransactionModel) (p : DebtPaymentModel) (d : DebtModel)
    (a : AccountModel) (s : Store) {flushed stored t : Store}
    → flush_movement m s ≡ ok flushed
    → insert_payment p flushed ≡ ok stored
    → ok (
        add_audit_event user AuditAction.debt_payment entity operation
          (with_account a (with_debt d stored)))
      ≡ ok t
    → (t.transactions ≡ m ∷ s.transactions)
      × (t.payments ≡ p ∷ s.payments)
      × (t.debts ≡ put debt_key d s.debts)
      × (t.accounts ≡ put account_key a s.accounts)
unfolding add_audit_event
written_lem user entity operation m p d a s {flushed} {t = t} moved inserted done =
    let e₁ = sym (flush_movement-eq-ok m s moved) in
    let (_, h) = insert_payment-eq-ok p flushed inserted in
    let e₂ = sym h in
    let e₃ = sym (ok-injective done) in
    (
      ap (λ u. u.transactions) e₃ ∙ (ap (λ u. u.transactions) e₂ ∙ ap (λ u. u.transactions) e₁),
      ap (λ u. u.payments) e₃ ∙ (ap (λ u. u.payments) e₂ ∙ ap (λ u. p ∷ u.payments) e₁),
      ap (λ u. u.debts) e₃
          ∙ (ap (λ u. put debt_key d u.debts) e₂ ∙ ap (λ u. put debt_key d u.debts) e₁),
      ap (λ u. u.accounts) e₃
          ∙ (ap (λ u. put account_key a u.accounts) e₂ ∙ ap (λ u. put account_key a u.accounts) e₁),
    )

accepting_lem :
    (status : DebtStatus) → not (accepts_payment status) ≡ false → accepts_payment status ≡ true
accepting_lem status h = ground arith

module _ (uuid5 : ℕ → Text → ℕ) (now : Instant) (user : ℕ) where
  -- The facts behind the checks and the writes of a repayment of the debt `debt_id`.
  pub record IsPayable (debt_id : ℕ) (command : RepayDebtCommand) (s : Store) (debt : DebtModel)
      (account : AccountModel) (paid_at : Instant) : Type 0 where
    pub dated : normalize_timestamp command.paid_at ≡ ok paid_at
    pub owned : get_debt debt_id user s ≡ some debt
    pub owned_account : get_account command.account_id user s ≡ some account
    pub accepting : accepts_payment debt.status ≡ true
    pub positive : pos 0 <ℤ command.amount.amount
    pub covered :
        paid_amount debt.id user s.payments +ℤ command.amount.amount ≤ℤ debt.original_amount

  pub record IsWritten (command : RepayDebtCommand) (debt : DebtModel) (account : AccountModel)
      (paid_at : Instant) (s : Store) (t : Store) : Type 0 where
    pub projected :
        require_projected_balance account user command.amount
          (repayment_effect debt.direction)
          paid_at
          now
          s
        ≡ ok tt
    pub movement : TransactionModel
    pub status : DebtStatus
    pub moved :
        (movement.account_id ≡ account.id)
        × (movement.amount ≡ command.amount.amount)
        × (movement.effect ≡ repayment_effect debt.direction)
        × (movement.status ≡ TransactionStatus.posted)
        × (movement.user_id ≡ user)
        × (movement.occurred_at ≡ paid_at)
    pub status_known :
        status_for debt.original_amount
          (paid_amount debt.id user s.payments +ℤ command.amount.amount)
        ≡ ok status
    pub transactions_after : t.transactions ≡ movement ∷ s.transactions
    pub payments_after : t.payments ≡ new_payment user debt.id paid_at command ∷ s.payments
    pub debts_after :
        t.debts ≡ put debt_key (record debt { status = status; version = debt.version + 1 }) s.debts
    pub accounts_after : t.accounts ≡ put account_key (bump_account account) s.accounts

  check_repayment-IsPayable :
      (debt_id : ℕ) (command : RepayDebtCommand) (s : Store) {debt : DebtModel}
      {account : AccountModel} {paid_at : Instant}
      → check_repayment uuid5 now user debt_id command s ≡ ok (debt, account, paid_at)
      → IsPayable debt_id command s debt account paid_at
  unfolding check_repayment
  check_repayment-IsPayable debt_id command s {debt} {account} {paid_at} h =
      let (_, positive, h₁) =
        >>=-eq-ok (require_positive command.amount Error.non_positive_amount) _ h in
      let (time, dated, h₂) = >>=-eq-ok (normalize_timestamp command.paid_at) _ h₁ in
      let (_, _, h₃) = >>=-eq-ok (require_not_future time now) _ h₂ in
      let (d, found, h₄) =
        >>=-eq-ok (or_raise (get_debt debt_id user s) Error.debt_not_found) _ h₃ in
      let (accepting, h₅) = raise_if-eq-ok (not (accepts_payment d.status)) _ _ h₄ in
      let (_, h₆) = raise_if-eq-ok (not (text_eq command.amount.currency d.currency)) _ _ h₅ in
      let paid = paid_amount d.id user s.payments in
      let (covered, h₇) =
        raise_if-eq-ok (ltb_ℤ (d.original_amount -ℤ paid) command.amount.amount) _ _ h₆ in
      let (a, usable, h₈) =
        >>=-eq-ok (require_account command.account_id user command.amount s) _ h₇ in
      let (_, h₉) = raise_if-eq-ok (ltb_ℤ time a.opened_at) _ _ h₈ in
      let same = ok-injective h₉ in
      let checked : IsPayable debt_id command s d a time = record {
        dated = dated;
        owned = or_raise-eq-ok _ _ found;
        owned_account = require_account-eq-ok command.account_id user command.amount s usable;
        accepting = accepting_lem _ accepting;
        positive = require_positive-eq-ok command.amount Error.non_positive_amount positive;
        covered = covered_lem d.original_amount paid command.amount.amount covered;
      } in
      subst (λ (r : DebtModel × AccountModel × Instant). IsPayable debt_id command s r.0 r.1 r.2)
        same checked

  post_repayment-IsWritten :
      (command : RepayDebtCommand) (debt : DebtModel) (account : AccountModel) (paid_at : Instant)
      (s : Store) {t : Store}
      → post_repayment uuid5 now user command debt account paid_at s ≡ ok t
      → IsWritten command debt account paid_at s t
  unfolding post_repayment build_posted_movement
  post_repayment-IsWritten command debt account paid_at s {t} h =
      let effect = repayment_effect debt.direction in
      let (_, projected, h₁) =
        >>=-eq-ok (require_projected_balance account user command.amount effect paid_at now s) _
          h in
      let (note, _, h₂) =
        >>=-eq-ok (normalize_optional_text command.note TextField.other_text 2000) _ h₁ in
      let movement =
        build_posted_movement command.transaction_id user account (repayment_kind debt.direction)
          effect command.amount paid_at (person_name (get_person debt.person_id user s)) note
          (uuid5 command.client_operation_id (text "debt-payment")) in
      let (flushed, moved, h₃) = >>=-eq-ok (flush_movement movement s) _ h₂ in
      let paid = paid_amount debt.id user s.payments +ℤ command.amount.amount in
      let (status, known, h₄) = >>=-eq-ok (status_for debt.original_amount paid) _ h₃ in
      let payment = new_payment user debt.id paid_at command in
      let (stored, inserted, h₅) = >>=-eq-ok (insert_payment payment flushed) _ h₄ in
      let (transactions, payments, debts, accounts) =
        written_lem user debt.id command.client_operation_id movement payment
          (record debt { status = status; version = debt.version + 1 }) (bump_account account) s
          {flushed = flushed} {stored = stored} moved inserted h₅ in
      record {
        projected = projected;
        movement = movement;
        status = status;
        moved = (refl, refl, refl, refl, refl, refl);
        status_known = known;
        transactions_after = transactions;
        payments_after = payments;
        debts_after = debts;
        accounts_after = accounts;
      }

  -- The two parts of a repayment that succeeds.
  pub repay-IsRepaid :
      (debt_id : ℕ) (command : RepayDebtCommand) (s : Store) {t : Store}
      → repay uuid5 now user debt_id command s ≡ ok t
      → (debt : DebtModel) × (account : AccountModel) × (paid_at : Instant) × (IsPayable debt_id
          command s debt account paid_at)
        × (IsWritten command debt account paid_at s t)
  unfolding repay
  repay-IsRepaid debt_id command s h =
      let ((debt, account, paid_at), checked, done) =
        >>=-eq-ok (check_repayment uuid5 now user debt_id command s) _ h in
      (
        debt,
        account,
        paid_at,
        check_repayment-IsPayable debt_id command s checked,
        post_repayment-IsWritten command debt account paid_at s done,
      )
