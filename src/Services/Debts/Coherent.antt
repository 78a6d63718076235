-- ===== src/Services/Debts/Coherent.antt =====
-- What it means that the debts and the payments of the store agree, and repayments.
use plan_it.Common.{
  ◌∷◌, ◌≡◌, arith, refl, ◌+◌, some, ok, inl, inr, ℕ, List, ◌≢◌, ◌⊎◌, sym, ◌∙◌, subst, ap,
}
use plan_it.Common.Int.{◌≤ℤ◌, ◌+ℤ◌, zero-+ℤ, +ℤ_comm}
use plan_it.Common.Text.{Text}
use plan_it.Common.Time.{Instant}
use plan_it.Services.Debts.{RepayDebtCommand, repay, new_payment}
use plan_it.Store.{Store, DebtModel, DebtPaymentModel, debt_key}
use plan_it.Store.Table.{find, put, find-put, find-key}
use plan_it.Debts.{DebtStatus, status_for}
use plan_it.Services.Debts.Effect.{repay-IsRepaid}
use plan_it.Store.Debts.{get_debt, paid_amount}

-- The status of a debt is the one of its payments, unless it was cancelled.
unfoldable pub IsPaid : DebtModel → List DebtPaymentModel → Type 0
IsPaid d ps =
    (paid_amount d.id d.user_id ps ≤ℤ d.original_amount)
    × ((d.status ≡ DebtStatus.cancelled)
        ⊎ (status_for d.original_amount (paid_amount d.id d.user_id ps) ≡ ok d.status))

-- Every debt agrees with its payments.
unfoldable pub IsCoherent : Store → Type 0
IsCoherent s = (k : ℕ) (d : DebtModel) → find debt_key k s.debts ≡ some d → IsPaid d s.payments

pub get_debt-find :
    (k user : ℕ) (s : Store) {d : DebtModel}
    → get_debt k user s ≡ some d
    → (find debt_key k s.debts ≡ some d) × (d.user_id ≡ user)
unfolding get_debt
get_debt-find k user s {d} h = ground arith

paid_amount-other :
    (k user : ℕ) (p : DebtPaymentModel) (ps : List DebtPaymentModel)
    → p.debt_id ≢ k
    → paid_amount k user (p ∷ ps) ≡ paid_amount k user ps
unfolding paid_amount
paid_amount-other k user p ps h = ground (arith, zero-+ℤ (paid_amount k user ps))

paid_amount-own :
    (k j user : ℕ) (p : DebtPaymentModel) (ps : List DebtPaymentModel)
    → p.debt_id ≡ k
    → p.user_id ≡ user
    → j ≡ user
    → paid_amount k j (p ∷ ps) ≡ paid_amount k user ps +ℤ p.amount
unfolding paid_amount
paid_amount-own k j user p ps same own owner =
    let order = +ℤ_comm p.amount (paid_amount k user ps) in
    ap (λ i. paid_amount k i (p ∷ ps)) owner ∙ ground (arith, order)

-- A table with one row replaced has the other rows as they were.
pub find-put-cases :
    {Row : Type 0} (key : Row → ℕ) (r : Row) (rs : List Row) (k : ℕ) {q : Row}
    → find key k (put key r rs) ≡ some q
    → (r ≡ q) ⊎ ((key r ≢ k) × (find key k rs ≡ some q))
find-put-cases key r rs k {q} h = let e = sym (find-put key r rs k) ∙ h in ground arith

payment_elsewhere :
    (d : DebtModel) (p : DebtPaymentModel) (ps : List DebtPaymentModel)
    → p.debt_id ≢ d.id
    → IsPaid d ps
    → IsPaid d (p ∷ ps)
unfolding IsPaid
payment_elsewhere d p ps other h =
    subst
      (λ paid.
        (paid ≤ℤ d.original_amount)
        × ((d.status ≡ DebtStatus.cancelled) ⊎ (status_for d.original_amount paid ≡ ok d.status)))
      (sym (paid_amount-other d.id d.user_id p ps other)) h

payment_here :
    (d : DebtModel) (user : ℕ) (p : DebtPaymentModel) (ps : List DebtPaymentModel)
    → p.debt_id ≡ d.id
    → p.user_id ≡ user
    → d.user_id ≡ user
    → (paid_amount d.id user ps +ℤ p.amount) ≤ℤ d.original_amount
    → status_for d.original_amount (paid_amount d.id user ps +ℤ p.amount) ≡ ok d.status
    → IsPaid d (p ∷ ps)
unfolding IsPaid
payment_here d user p ps same own owner covered known =
    subst
      (λ paid.
        (paid ≤ℤ d.original_amount)
        × ((d.status ≡ DebtStatus.cancelled) ⊎ (status_for d.original_amount paid ≡ ok d.status)))
      (sym (paid_amount-own d.id d.user_id user p ps same own owner)) (covered, inr known)

module _ (uuid5 : ℕ → Text → ℕ) (now : Instant) (user : ℕ) where
  -- Where the payments of every debt are at most its amount, and its status is the one of its
  -- payments unless it is cancelled, a repayment that succeeds leads to a store where both hold
  -- again.
  pub repay-IsCoherent :
      (debt_id : ℕ) (command : RepayDebtCommand) (s : Store) {t : Store}
      → IsCoherent s
      → repay uuid5 now user debt_id command s ≡ ok t
      → IsCoherent t
  unfolding IsCoherent
  repay-IsCoherent debt_id command s {t} coherent h k d found =
      let (debt, account, paid_at, checked, written) =
        repay-IsRepaid uuid5 now user debt_id command s h in
      let (held, owner) = get_debt-find debt_id user s checked.owned in
      let payment = new_payment user debt.id paid_at command in
      let row = record debt { status = written.status; version = debt.version + 1 } in
      let row_paid : IsPaid row (payment ∷ s.payments) =
        payment_here row user payment s.payments refl refl owner checked.covered
          written.status_known in
      subst (IsPaid d) (sym written.payments_after)
        (elim (find-put-cases debt_key row s.debts k
          (ap (find debt_key k) (sym written.debts_after) ∙ found)) [
            | inl same ↦ subst (λ (e : DebtModel). IsPaid e (payment ∷ s.payments)) same row_paid
            | inr (other, old) ↦
                payment_elsewhere d payment s.payments
                  (λ e. other (e ∙ find-key debt_key k s.debts old)) (coherent k d old)
          ])
