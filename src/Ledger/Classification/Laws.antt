-- ===== src/Ledger/Classification/Laws.antt =====
-- Every kind but the reversal has a classification, and a reversal cancels it in every report.
use plan_it.Common.Int.{ℤ, neg, ◌*ℤ◌, ◌+ℤ◌, pos, *ℤ_cancel, negsuc}
use plan_it.Common.{◌≡◌, err, Error, ◌⊎◌, ok, inl, inr, refl}
use plan_it.Ledger.Classification.{
  AnalyticsClassification, reversal_classification_for, classification_for, entry,
  PortfolioFlowClass,
}
use plan_it.Ledger.Enums.{TransactionKind}

-- What a classification adds to spending and to income for an amount.
abbrev pub spending_of : AnalyticsClassification → ℤ → ℤ
spending_of c a = c.spending_multiplier *ℤ a

abbrev pub income_of : AnalyticsClassification → ℤ → ℤ
income_of c a = c.income_multiplier *ℤ a

abbrev negated : AnalyticsClassification → AnalyticsClassification
negated c = record c {
  spending_multiplier = neg c.spending_multiplier;
  income_multiplier = neg c.income_multiplier;
}

-- The kind and its reversal are classified, and cancel.
abbrev pub Cancels : TransactionKind → Type 0
Cancels kind =
    (c : AnalyticsClassification) × (r : AnalyticsClassification) × (classification_for kind ≡ ok c)
    × (reversal_classification_for kind ≡ ok r)
    × (r.portfolio_flow ≡ c.portfolio_flow)
    × ((a : ℤ) → spending_of c a +ℤ spending_of r a ≡ pos 0)
    × ((a : ℤ) → income_of c a +ℤ income_of r a ≡ pos 0)

-- A classification and the one with negated multipliers.
cancels :
    (kind : TransactionKind) (c : AnalyticsClassification)
    → classification_for kind ≡ ok c
    → reversal_classification_for kind ≡ ok (negated c)
    → Cancels kind
cancels kind c e r = (
  c,
  negated c,
  e,
  r,
  refl,
  λ a. *ℤ_cancel c.spending_multiplier a,
  λ a. *ℤ_cancel c.income_multiplier a,
)

-- A kind other than the reversal has a classification and one for its reversal, of the same flow
-- class, and for every amount the two together add nothing to spending and nothing to income; for
-- the kind of a reversal both are refused.
pub reversal_classification-Cancels :
    (kind : TransactionKind)
    → ((kind ≡ TransactionKind.reversal)
        × (classification_for kind ≡ err Error.original_classification_required)
        × (reversal_classification_for kind ≡ err Error.reversal_of_reversal_not_allowed))
      ⊎ Cancels kind
unfolding reversal_classification_for neg
reversal_classification-Cancels TransactionKind.reversal = inl (refl, refl, refl)
reversal_classification-Cancels TransactionKind.expense =
    inr (
      cancels TransactionKind.expense (entry (pos 1) (pos 0) PortfolioFlowClass.external) refl refl)
reversal_classification-Cancels TransactionKind.income =
    inr
      (cancels TransactionKind.income (entry (pos 0) (pos 1) PortfolioFlowClass.external) refl refl)
reversal_classification-Cancels TransactionKind.transfer_out = inr (
    cancels TransactionKind.transfer_out (entry (pos 0) (pos 0) PortfolioFlowClass.internal) refl
      refl)
reversal_classification-Cancels TransactionKind.transfer_in = inr (
    cancels TransactionKind.transfer_in (entry (pos 0) (pos 0) PortfolioFlowClass.internal) refl
      refl)
reversal_classification-Cancels TransactionKind.transfer_fee = inr (
    cancels TransactionKind.transfer_fee (entry (pos 1) (pos 0) PortfolioFlowClass.external) refl
      refl)
reversal_classification-Cancels TransactionKind.refund = inr (
    cancels TransactionKind.refund (entry (negsuc 0) (pos 0) PortfolioFlowClass.external) refl refl)
reversal_classification-Cancels TransactionKind.loan_principal_out = inr (
    cancels TransactionKind.loan_principal_out (entry (pos 0) (pos 0) PortfolioFlowClass.external)
      refl refl)
reversal_classification-Cancels TransactionKind.loan_principal_in = inr (
    cancels TransactionKind.loan_principal_in (entry (pos 0) (pos 0) PortfolioFlowClass.external)
      refl refl)
reversal_classification-Cancels TransactionKind.debt_repayment_in = inr (
    cancels TransactionKind.debt_repayment_in (entry (pos 0) (pos 0) PortfolioFlowClass.external)
      refl refl)
reversal_classification-Cancels TransactionKind.debt_repayment_out = inr (
    cancels TransactionKind.debt_repayment_out (entry (pos 0) (pos 0) PortfolioFlowClass.external)
      refl refl)
reversal_classification-Cancels TransactionKind.reconciliation_adjustment = inr (
    cancels TransactionKind.reconciliation_adjustment
      (entry (pos 0) (pos 0) PortfolioFlowClass.non_cash_adjustment) refl refl)
