-- ===== src/Services/Corrections/Evaluated.antt =====
-- What the evaluation of a reconciliation has found.
use plan_it.Common.{
  if◌then◌else◌, ◌≡◌, arith, refl, some, ok, zero, suc, Error, not, ℕ, raise_if-eq-ok, any,
  >>=-eq-ok, or_raise, ◌==◌, ap, subst, sym, ◌&&◌, ok-injective, or_raise-eq-ok, ◌∙◌,
}
use plan_it.Common.Int.{ℤ, pos, magnitude, neg, -ℤ-zero, negsuc, ◌+ℤ◌, ltb_ℤ}
use plan_it.Common.Time.{to_utc, Instant, Datetime, max_instant}
use plan_it.Common.Text.{Text, text_eq}
use plan_it.Ledger.Reconciliation.{
  preview_reconciliation, ReconciliationSource, ReconciliationPreview,
  preview_reconciliation_closes,
}
use plan_it.Ledger.Enums.{is_inflow, is_active}
use plan_it.Services.Corrections.{
  adjustment_effect, ReconciliationPreviewCommand, evaluate_reconciliation, insert_reconciliation,
  check_reconciliation, repeats_reconciliation_operation,
}
use plan_it.Money.{Money, in_range, plus}
use plan_it.Store.Balance.{get_account, account_key, get_balance, movement_total}
use plan_it.Store.Rows.{BalanceReconciliationModel}
use plan_it.Store.{Store, AccountModel}
use plan_it.Store.Table.{find, find-key}
use plan_it.Ledger.Policies.{normalize_timestamp, require_not_future}
use plan_it.Store.Overdraft.{get_balance-amount}

pub signed_amount-magnitude :
    (d : ℤ)
    → (if is_inflow (adjustment_effect d) then pos (magnitude d) else neg (pos (magnitude d))) ≡ d
unfolding neg
signed_amount-magnitude (pos zero) = refl
signed_amount-magnitude (pos (suc n)) = ground arith
signed_amount-magnitude (negsuc n) = ground arith

effective_at-eq :
    (digest : ReconciliationSource → Text) (id : ℕ) (version : ℤ) (calculated actual : Money)
    (at : Instant) {p : ReconciliationPreview Text}
    → preview_reconciliation digest id version calculated actual (Datetime.aware at (pos 0)) ≡ ok p
    → p.effective_at ≡ at
unfolding preview_reconciliation to_utc
effective_at-eq digest id version calculated actual at h = ground (arith, -ℤ-zero at)

pub insert_reconciliation-transactions :
    (r : BalanceReconciliationModel) (s : Store) {t : Store}
    → insert_reconciliation r s ≡ ok t
    → t.transactions ≡ s.transactions
unfolding insert_reconciliation
insert_reconciliation-transactions r s h =
    let (_, h₁) = raise_if-eq-ok (any (λ q. r.id == q.id) s.reconciliations) _ _ h in
    let (_, h₂) =
      raise_if-eq-ok (any (repeats_reconciliation_operation r) s.reconciliations) _ _ h₁ in
    let (_, h₃) =
      raise_if-eq-ok
        (any (λ q. r.adjustment_transaction_id == q.adjustment_transaction_id) s.reconciliations) _
        _ h₂ in
    ap (λ u. u.transactions) (sym (ok-injective h₃))

-- The amount of the adjustment.
pub in_range-amount :
    (units : ℤ) (currency : Text) {a : Money} → in_range units currency ≡ ok a → a.amount ≡ units
unfolding in_range
in_range-amount units currency h = ground arith

get_account_self :
    (id user : ℕ) (s : Store) {a : AccountModel}
    → get_account id user s ≡ some a
    → (a.id ≡ id) × (get_account a.id user s ≡ some a)
unfolding get_account
get_account_self id user s {a} h =
    let held : find account_key id s.accounts ≡ some a = ground arith in
    let e = find-key account_key id s.accounts held in
    (e, subst (λ k. get_account k user s ≡ some a) (sym e) h)

module _ (digest : ReconciliationSource → Text) (uuid5 : ℕ → Text → ℕ) (now : Instant)
    (user : ℕ) where
  check_reconciliation-account :
      (command : ReconciliationPreviewCommand) (at : Instant) (s : Store) {a : AccountModel}
      → check_reconciliation digest uuid5 now user command at s ≡ ok a
      → get_account command.account_id user s ≡ some a
  unfolding check_reconciliation
  check_reconciliation-account command at s h =
      let (account, found, h₁) =
        >>=-eq-ok (or_raise (get_account command.account_id user s) Error.account_not_found) _ h in
      let (_, h₂) = raise_if-eq-ok (not (is_active account.status)) _ _ h₁ in
      let (_, h₃) =
        raise_if-eq-ok (not (text_eq command.actual_balance.currency account.currency)) _ _ h₂ in
      let (_, h₄) = raise_if-eq-ok (ltb_ℤ at account.opened_at) _ _ h₃ in
      let (_, h₅) =
        raise_if-eq-ok (ltb_ℤ command.actual_balance.amount (pos 0) && not account.allow_negative) _
          _ h₄ in
      or_raise-eq-ok _ _ found ∙ ap some (ok-injective h₅)

  -- What the evaluation of a reconciliation has found.
  pub record IsEvaluated (command : ReconciliationPreviewCommand) (s : Store)
      (account : AccountModel) (preview : ReconciliationPreview Text) : Type 0 where
    pub at : Instant
    pub dated : normalize_timestamp command.effective_at ≡ ok at
    pub owned : get_account command.account_id user s ≡ some account
    pub effective : preview.effective_at ≡ at
    pub closes :
        (account.opening_balance +ℤ movement_total user account.id at s.transactions)
          +ℤ preview.delta.amount
        ≡ command.actual_balance.amount

  pub evaluate_reconciliation-IsEvaluated :
      (command : ReconciliationPreviewCommand) (s : Store) {account : AccountModel}
      {preview : ReconciliationPreview Text}
      → evaluate_reconciliation digest uuid5 now user command s ≡ ok (account, preview)
      → IsEvaluated command s account preview
  unfolding evaluate_reconciliation
  evaluate_reconciliation-IsEvaluated command s h =
      let (at, dated, h₁) = >>=-eq-ok (normalize_timestamp command.effective_at) _ h in
      let (_, _, h₂) = >>=-eq-ok (require_not_future at now) _ h₁ in
      let (a, checked, h₃) =
        >>=-eq-ok (check_reconciliation digest uuid5 now user command at s) _ h₂ in
      let (found, balanced, h₄) = >>=-eq-ok (get_balance a.id user at s) _ h₃ in
      let (calculated, present, h₅) = >>=-eq-ok (or_raise found Error.account_not_found) _ h₄ in
      let (p, previewed, h₆) =
        >>=-eq-ok
          (preview_reconciliation digest a.id (pos a.version) calculated command.actual_balance
            (Datetime.aware at (pos 0)))
          _ h₅ in
      let (current, _, h₇) = >>=-eq-ok (get_balance a.id user (max_instant now at) s) _ h₆ in
      let (balance, _, h₈) = >>=-eq-ok (or_raise current Error.account_not_found) _ h₇ in
      let (projected, _, h₉) = >>=-eq-ok (plus balance p.delta) _ h₈ in
      let (_, h₁₀) =
        raise_if-eq-ok (ltb_ℤ projected.amount (pos 0) && not a.allow_negative) _ _ h₉ in
      let owned = check_reconciliation-account command at s checked in
      let (_, self) = get_account_self command.account_id user s owned in
      let total =
        get_balance-amount a.id user at s self
          (balanced ∙ ap ok (or_raise-eq-ok found Error.account_not_found present)) in
      let (gap, _, _, _, _) =
        preview_reconciliation_closes digest a.id (pos a.version) calculated command.actual_balance
          (Datetime.aware at (pos 0)) previewed in
      subst (λ (r : AccountModel × ReconciliationPreview Text). IsEvaluated command s r.0 r.1)
        (ok-injective h₁₀)
        (record {
          at = at;
          dated = dated;
          owned = owned;
          effective =
              effective_at-eq digest a.id (pos a.version) calculated command.actual_balance at
                previewed;
          closes = ap (λ b. b +ℤ p.delta.amount) (sym total) ∙ gap;
        })
