-- ===== src/Services/Corrections/Reconciled.antt =====
-- What a reconciliation does to the balance of its account.
use plan_it.Common.{
  if◌then◌else◌, ◌∷◌, ◌≡◌, arith, refl, some, ok, not, ℕ, ◌∙◌, >>=-eq-ok, ap, raise_if-eq-ok, sym,
  ok-injective,
}
use plan_it.Common.Text.{Text, text_eq}
use plan_it.Common.Time.{Instant}
use plan_it.Common.Int.{ℤ, pos, magnitude, ◌+ℤ◌, neg, eqb_ℤ, +ℤ_comm, +ℤ_assoc}
use plan_it.Ledger.Reconciliation.{ReconciliationSource}
use plan_it.Store.{TransactionModel, add_audit_event, Store, AccountModel}
use plan_it.Services.Corrections.{
  commit_reconciliation_in_transaction, adjustment_effect, CommitReconciliationCommand,
  evaluate_reconciliation, adjustment_row, reconciliation_conflict, insert_reconciliation,
}
use plan_it.Ledger.Enums.{TransactionStatus, is_inflow}
use plan_it.Store.Balance.{movement_total, get_account, signed_amount}
use plan_it.Store.Totals.{counted}
use plan_it.Ledger.Policies.{normalize_timestamp, normalize_optional_text, TextField}
use plan_it.Services.Corrections.Evaluated.{
  signed_amount-magnitude, evaluate_reconciliation-IsEvaluated, insert_reconciliation-transactions,
  in_range-amount,
}
use plan_it.Money.{in_range}
use plan_it.Store.Movement.{violated, with_account, bump_account, with_transaction}

module _ (digest : ReconciliationSource → Text) (uuid5 : ℕ → Text → ℕ) (now : Instant)
    (user : ℕ) where
  counted-adjustment :
      (m : TransactionModel) (d : ℤ) (as_of : Instant)
      → m.user_id ≡ user
      → m.status ≡ TransactionStatus.posted
      → m.effect ≡ adjustment_effect d
      → m.amount ≡ pos (magnitude d)
      → m.occurred_at ≡ as_of
      → counted user m.account_id as_of m ≡ d
  counted-adjustment m d as_of owner posted effect amount at =
      let shown : counted user m.account_id as_of m ≡ signed_amount m = ground arith in
      shown
      ∙ (ap (λ e. if is_inflow e then m.amount else neg m.amount) effect
          ∙ (ap (λ u. if is_inflow (adjustment_effect d) then u else neg u) amount
              ∙ signed_amount-magnitude d))

  -- After a reconciliation that succeeds, the balance of its account at its time, opening balance
  -- and movements together, is exactly the balance that the user has entered.
  pub commit_reconciliation-balance :
      (command : CommitReconciliationCommand) (s : Store) {t : Store}
      → commit_reconciliation_in_transaction digest uuid5 now user command s ≡ ok t
      → (account : AccountModel) × (at : Instant) × (get_account command.preview.account_id user s
          ≡ some account)
        × (normalize_timestamp command.preview.effective_at ≡ ok at)
        × (account.opening_balance +ℤ movement_total user account.id at t.transactions
            ≡ command.preview.actual_balance.amount)
  unfolding commit_reconciliation_in_transaction add_audit_event movement_total
  commit_reconciliation-balance command s {t} h =
      let ((account, preview), evaluated, h₁) =
        >>=-eq-ok (evaluate_reconciliation digest uuid5 now user command.preview s) _ h in
      let (_, h₂) =
        raise_if-eq-ok (not (text_eq preview.source_fingerprint command.source_fingerprint)) _ _
          h₁ in
      let (_, h₃) = raise_if-eq-ok (eqb_ℤ preview.delta.amount (pos 0)) _ _ h₂ in
      let (reason, _, h₄) =
        >>=-eq-ok (normalize_optional_text command.reason TextField.other_text 2000) _ h₃ in
      let (amount, sized, h₅) =
        >>=-eq-ok (in_range (pos (magnitude preview.delta.amount)) preview.delta.currency) _ h₄ in
      let row = adjustment_row digest uuid5 now user command account preview amount reason in
      let (_, _, h₆) = >>=-eq-ok (reconciliation_conflict (violated row s)) _ h₅ in
      let bumped = with_account (bump_account account) (with_transaction row s) in
      let (stored, inserted, h₇) = >>=-eq-ok (insert_reconciliation _ bumped) _ h₆ in
      let e =
        evaluate_reconciliation-IsEvaluated digest uuid5 now user command.preview s evaluated in
      let rows : t.transactions ≡ row ∷ s.transactions =
        ap (λ u. u.transactions) (sym (ok-injective h₇))
        ∙ insert_reconciliation-transactions _ bumped inserted in
      let added : counted user account.id e.at row ≡ preview.delta.amount =
        counted-adjustment row preview.delta.amount e.at refl refl refl
          (in_range-amount (pos (magnitude preview.delta.amount)) preview.delta.currency sized)
          e.effective in
      (
        account,
        e.at,
        e.owned,
        e.dated,
        ap (λ ts. account.opening_balance +ℤ movement_total user account.id e.at ts) rows
            ∙ (ap
                  (λ n.
                    account.opening_balance
                    +ℤ (n +ℤ movement_total user account.id e.at s.transactions))
                  added
                ∙ (ap (λ n. account.opening_balance +ℤ n) (+ℤ_comm _ _)
                    ∙ (sym (+ℤ_assoc _ _ _) ∙ e.closes))),
      )
