-- ===== src/Debts/Laws.antt =====
-- What the status of a debt says about its amounts.
use plan_it.Common.{◌≡◌, arith, ok, err, Error, ◌↔◌, ◌⊎◌, ◌≢◌}
use plan_it.Common.Int.{ℤ, pos, ◌<ℤ◌, ◌≤ℤ◌, -ℤ_parts, eq_of_parts}
use plan_it.Debts.{require_origin_direction, status_for, DebtOriginType, DebtStatus, DebtDirection}

-- The status is settled exactly when the payments are the original amount, partially paid exactly
-- when they are positive and less, open exactly when they are less and not positive, and never
-- cancelled; payments above the original amount are refused, and only those.
pub status_for_iff :
    (original paid : ℤ)
    → ((status_for original paid ≡ ok DebtStatus.settled) ↔ (paid ≡ original))
      × ((status_for original paid ≡ ok DebtStatus.partially_paid)
          ↔ ((pos 0 <ℤ paid) × (paid <ℤ original)))
      × ((status_for original paid ≡ ok DebtStatus.open_debt)
          ↔ ((paid ≤ℤ pos 0) × (paid <ℤ original)))
      × (status_for original paid ≢ ok DebtStatus.cancelled)
      × ((status_for original paid ≡ err Error.debt_overpayment) ↔ (original <ℤ paid))
unfolding status_for
status_for_iff original paid = grind (arith, -ℤ_parts, eq_of_parts)

-- An origin is accepted exactly with its direction: receivable for lending and shared expenses,
-- payable for borrowing, either one for an existing debt.
pub require_origin_direction_iff :
    (origin : DebtOriginType) (direction : DebtDirection)
    → (require_origin_direction origin direction ≡ ok tt) ↔ (
        (origin ≡ DebtOriginType.existing)
        ⊎ ((origin ≡ DebtOriginType.borrow_now) × (direction ≡ DebtDirection.payable))
        ⊎ ((origin ≡ DebtOriginType.lend_now) × (direction ≡ DebtDirection.receivable))
        ⊎ ((origin ≡ DebtOriginType.shared_expense) × (direction ≡ DebtDirection.receivable)))
unfolding require_origin_direction
require_origin_direction_iff origin direction = ground arith
