-- ===== src/Debts/Tests.antt =====
-- The policies of debts at concrete inputs.
use plan_it.Common.{◌≡◌, ok, err, Error, ◌↔◌, ◌⊎◌, ◌≢◌}
use plan_it.Common.Int.{pos, ◌<ℤ◌, ◌≤ℤ◌}
use plan_it.Debts.{require_origin_direction, status_for, DebtOriginType, DebtStatus, DebtDirection}
use plan_it.Debts.Laws.{require_origin_direction_iff, status_for_iff}

status_for_iff_example :
    ((status_for (pos 50) (pos 20) ≡ ok DebtStatus.settled) ↔ (pos 20 ≡ pos 50))
    × ((status_for (pos 50) (pos 20) ≡ ok DebtStatus.partially_paid)
        ↔ ((pos 0 <ℤ pos 20) × (pos 20 <ℤ pos 50)))
    × ((status_for (pos 50) (pos 20) ≡ ok DebtStatus.open_debt)
        ↔ ((pos 20 ≤ℤ pos 0) × (pos 20 <ℤ pos 50)))
    × (status_for (pos 50) (pos 20) ≢ ok DebtStatus.cancelled)
    × ((status_for (pos 50) (pos 20) ≡ err Error.debt_overpayment) ↔ (pos 50 <ℤ pos 20))
status_for_iff_example = status_for_iff (pos 50) (pos 20)

require_origin_direction_iff_example :
    (require_origin_direction DebtOriginType.lend_now DebtDirection.payable ≡ ok tt) ↔ (
      (DebtOriginType.lend_now ≡ DebtOriginType.existing)
      ⊎ ((DebtOriginType.lend_now ≡ DebtOriginType.borrow_now)
          × (DebtDirection.payable ≡ DebtDirection.payable))
      ⊎ ((DebtOriginType.lend_now ≡ DebtOriginType.lend_now)
          × (DebtDirection.payable ≡ DebtDirection.receivable))
      ⊎ ((DebtOriginType.lend_now ≡ DebtOriginType.shared_expense)
          × (DebtDirection.payable ≡ DebtDirection.receivable)))
require_origin_direction_iff_example =
    require_origin_direction_iff DebtOriginType.lend_now DebtDirection.payable
