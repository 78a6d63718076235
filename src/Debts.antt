-- ===== src/Debts.antt =====
-- Debts (backend/app/domain/debts). Amounts are whole ten-thousandths, as the database keeps them.
pub mod Laws
mod Tests
use plan_it.Common.{
  if◌then◌else◌, ◌>>◌, ◌>>=◌, ◌∷◌, ◌≡◌, arith, refl, ◌+◌, some, none, [], ok, err, true, false,
  zero, suc, inl, inr, Error, Result, not, ℕ, Option, raise_if, Bool,
}
use plan_it.Common.Int.{ℤ, ◌-ℤ◌, eqb_ℤ, ltb_ℤ, pos}

pub data DebtDirection : Type 0 where
  receivable payable : DebtDirection

pub data DebtOriginType : Type 0 where
  existing lend_now borrow_now shared_expense : DebtOriginType

pub data DebtStatus : Type 0 where
  open_debt partially_paid settled cancelled : DebtStatus

abbrev pub same_direction : DebtDirection → DebtDirection → Bool
same_direction DebtDirection.receivable DebtDirection.receivable = true
same_direction DebtDirection.payable DebtDirection.payable = true
same_direction _ _ = false

-- The direction that an origin asks for, if it asks for one.
abbrev pub expected_direction : DebtOriginType → Option DebtDirection
expected_direction DebtOriginType.existing = none
expected_direction DebtOriginType.lend_now = some DebtDirection.receivable
expected_direction DebtOriginType.borrow_now = some DebtDirection.payable
expected_direction DebtOriginType.shared_expense = some DebtDirection.receivable

abbrev differs : Option DebtDirection → DebtDirection → Bool
differs none direction = false
differs (some expected) direction = not (same_direction direction expected)

unfoldable pub require_origin_direction : DebtOriginType → DebtDirection → Result (Unit {0})
require_origin_direction origin direction =
    raise_if (differs (expected_direction origin) direction) Error.debt_direction_mismatch

unfoldable pub remaining_amount : ℤ → ℤ → Result ℤ
remaining_amount original paid =
    let remaining = original -ℤ paid in
    if ltb_ℤ remaining (pos 0) then err Error.debt_overpayment else ok remaining

unfoldable pub status_for : ℤ → ℤ → Result DebtStatus
unfolding remaining_amount
status_for original paid = do
  remaining ← remaining_amount original paid
  ok (
      if eqb_ℤ remaining (pos 0)
      then DebtStatus.settled
      else if ltb_ℤ (pos 0) paid
      then DebtStatus.partially_paid
      else DebtStatus.open_debt)
