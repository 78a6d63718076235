-- ===== src/Ledger/Tests/Balances.antt =====
-- The balance of an account and what follows from it, at concrete inputs.
use plan_it.Common.{◌∷◌, ◌≡◌, arith, refl, none, [], ok, err, Error, Option, List, All, ◌↔◌, ◌⊎◌}
use plan_it.Common.Int.{◌+ℤ◌, pos, ◌-ℤ◌, neg}
use plan_it.Common.Time.{Instant}
use plan_it.Common.Text.{text_eq}
use plan_it.Ledger.Balance.{calculate_account_balance, LedgerMovement, normalize_as_of}
use plan_it.Ledger.Policies.{require_reversible}
use plan_it.Ledger.Tests.Data.{dollars, spent, earned, noon, drafted, usd}
use plan_it.Ledger.Balance.Sum.{
  net_movement, calculate_account_balance_total, InCurrency, calculate_account_balance-sum,
}
use plan_it.Ledger.Enums.{TransactionKind, TransactionStatus}
use plan_it.Ledger.Classification.{classification_for, reversal_classification_for}
use plan_it.Ledger.Classification.Laws.{Cancels, reversal_classification-Cancels}
use plan_it.Ledger.Policies.Laws.{require_reversible_iff}
use plan_it.Money.{negate, plus}

abbrev movements : List LedgerMovement
movements = spent ∷ earned ∷ drafted ∷ []

balance_run : calculate_account_balance (dollars 100) movements noon ≡ ok (dollars 120)
unfolding calculate_account_balance ◌+ℤ◌ ◌-ℤ◌ neg text_eq negate plus
balance_run = refl

calculate_account_balance-sum_example :
    (cutoff : Option Instant) × (normalize_as_of noon ≡ ok cutoff)
    × (pos 1_200_000 ≡ pos 1_000_000 +ℤ net_movement cutoff movements)
    × (usd ≡ usd)
    × All (InCurrency usd) movements
calculate_account_balance-sum_example =
    calculate_account_balance-sum (dollars 100) movements noon balance_run

calculate_account_balance_total_example :
    calculate_account_balance (dollars 100) movements none
    ≡ ok (record { amount = pos 1_000_000 +ℤ net_movement none movements; currency = usd })
calculate_account_balance_total_example =
    calculate_account_balance_total (dollars 100) movements none none refl
      (refl, (refl, (refl, tt))) (omega arith)

reversal_classification-Cancels_example :
    ((TransactionKind.expense ≡ TransactionKind.reversal)
      × (classification_for TransactionKind.expense ≡ err Error.original_classification_required)
      × (reversal_classification_for TransactionKind.expense
          ≡ err Error.reversal_of_reversal_not_allowed))
    ⊎ Cancels TransactionKind.expense
reversal_classification-Cancels_example = reversal_classification-Cancels TransactionKind.expense

require_reversible_iff_example :
    (require_reversible TransactionStatus.posted TransactionKind.income ≡ ok tt) ↔ (
      (TransactionStatus.posted ≡ TransactionStatus.posted)
      × ((TransactionKind.income ≡ TransactionKind.expense)
          ⊎ (TransactionKind.income ≡ TransactionKind.income)))
require_reversible_iff_example =
    require_reversible_iff TransactionStatus.posted TransactionKind.income
