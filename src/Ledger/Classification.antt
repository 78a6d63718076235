-- ===== src/Ledger/Classification.antt =====
-- `AnalyticsClassification` (backend/app/domain/ledger/classification.py).
pub mod Laws
use plan_it.Common.{
  Result, Option, Bool, leb, some, none, if◌then◌else◌, ◌>>◌, ◌>>=◌, ◌∷◌, ◌≡◌, arith, refl, ◌+◌,
  raise_if, not, err, Error, or_raise, ok,
}
use plan_it.Common.Int.{ℤ, neg, pos, magnitude, negsuc}
use plan_it.Ledger.Enums.{TransactionKind, is_reversal}

pub data PortfolioFlowClass : Type 0 where
  external internal non_cash_adjustment : PortfolioFlowClass

pub record AnalyticsClassification : Type 0 where
  pub spending_multiplier : ℤ
  pub income_multiplier : ℤ
  pub portfolio_flow : PortfolioFlowClass

abbrev is_sign : ℤ → Bool
is_sign a = leb (magnitude a) 1

-- The constructor, with `__post_init__`.
unfoldable pub classification : ℤ → ℤ → PortfolioFlowClass → Result AnalyticsClassification
classification spending income flow = do
  raise_if (not (is_sign spending)) Error.value_error
  raise_if (not (is_sign income)) Error.value_error
  ok (record { spending_multiplier = spending; income_multiplier = income; portfolio_flow = flow })

unfoldable pub reversed : AnalyticsClassification → Result AnalyticsClassification
unfolding classification
reversed c = classification (neg c.spending_multiplier) (neg c.income_multiplier) c.portfolio_flow

abbrev pub entry : ℤ → ℤ → PortfolioFlowClass → AnalyticsClassification
entry s i f = record { spending_multiplier = s; income_multiplier = i; portfolio_flow = f }

-- `_CLASSIFICATIONS`, which has no entry for a reversal.
unfoldable pub classifications : TransactionKind → Option AnalyticsClassification
classifications TransactionKind.expense = some (entry (pos 1) (pos 0) PortfolioFlowClass.external)
classifications TransactionKind.income = some (entry (pos 0) (pos 1) PortfolioFlowClass.external)
classifications TransactionKind.transfer_out =
    some (entry (pos 0) (pos 0) PortfolioFlowClass.internal)
classifications TransactionKind.transfer_in =
    some (entry (pos 0) (pos 0) PortfolioFlowClass.internal)
classifications TransactionKind.transfer_fee =
    some (entry (pos 1) (pos 0) PortfolioFlowClass.external)
classifications TransactionKind.refund = some (entry (negsuc 0) (pos 0) PortfolioFlowClass.external)
classifications TransactionKind.loan_principal_out =
    some (entry (pos 0) (pos 0) PortfolioFlowClass.external)
classifications TransactionKind.loan_principal_in =
    some (entry (pos 0) (pos 0) PortfolioFlowClass.external)
classifications TransactionKind.debt_repayment_in =
    some (entry (pos 0) (pos 0) PortfolioFlowClass.external)
classifications TransactionKind.debt_repayment_out =
    some (entry (pos 0) (pos 0) PortfolioFlowClass.external)
classifications TransactionKind.reconciliation_adjustment =
    some (entry (pos 0) (pos 0) PortfolioFlowClass.non_cash_adjustment)
classifications TransactionKind.reversal = none

-- A missing key would be a `KeyError`, for which `value_error` stands.
unfoldable pub classification_for : TransactionKind → Result AnalyticsClassification
unfolding classifications
classification_for kind =
    if is_reversal kind
    then err Error.original_classification_required
    else or_raise (classifications kind) Error.value_error

unfoldable pub reversal_classification_for : TransactionKind → Result AnalyticsClassification
unfolding classification_for reversed
reversal_classification_for original_kind =
    if is_reversal original_kind
    then err Error.reversal_of_reversal_not_allowed
    else do c ← classification_for original_kind; reversed c
