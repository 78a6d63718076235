-- ===== src/Store/Debts.antt =====
-- The tables of people, debts and payments: the queries of
-- backend/app/infrastructure/repositories/debts.py and the insertions that `DebtService` flushes by
-- `_flush_conflicts` (backend/app/application/debts.py).
use plan_it.Common.{
  if◌then◌else◌, ◌>>◌, ◌∷◌, some, none, [], ok, Error, Result, ℕ, List, Bool, raise_if, Option,
  ◌==◌, is_some, ◌&&◌, any,
}
use plan_it.Common.Int.{ℤ, pos, ◌+ℤ◌}
use plan_it.Store.{
  Store, DebtPaymentModel, DebtModel, debt_key, PersonModel, payment_key, person_key,
}
use plan_it.Store.Table.{put, find}

-- `PeopleRepository.get_owned`, `DebtRepository.get_owned`.
unfoldable pub get_person : ℕ → ℕ → Store → Option PersonModel
get_person id user s = elim (find person_key id s.people) [
  | none ↦ none
  | some p ↦ if p.user_id == user then some p else none
]

unfoldable pub get_debt : ℕ → ℕ → Store → Option DebtModel
get_debt id user s = elim (find debt_key id s.debts) [
  | none ↦ none
  | some d ↦ if d.user_id == user then some d else none
]

-- `DebtRepository.paid_amount`, over the payments of the table.
unfoldable pub paid_amount : ℕ → ℕ → List DebtPaymentModel → ℤ
paid_amount debt user [] = pos 0
paid_amount debt user (p ∷ ps) =
    (if p.debt_id == debt && p.user_id == user then p.amount else pos 0) +ℤ paid_amount debt user ps

abbrev pub with_debt : DebtModel → Store → Store
with_debt d s = record s { debts = put debt_key d s.debts }

-- The row is added after the checks of its table, in the order of `_flush_conflicts`.
abbrev pub repeats_debt : ℕ → ℕ → DebtModel → Bool
repeats_debt user operation d = d.user_id == user && d.client_operation_id == operation

abbrev pub repeats_payment : ℕ → ℕ → DebtPaymentModel → Bool
repeats_payment user operation p = p.user_id == user && p.client_operation_id == operation

unfoldable pub insert_debt : DebtModel → Store → Result Store
insert_debt d s = do
  raise_if (is_some (find debt_key d.id s.debts)) Error.debt_id_conflict
  raise_if (any (repeats_debt d.user_id d.client_operation_id) s.debts)
      Error.debt_operation_conflict
  ok (record s { debts = d ∷ s.debts })

unfoldable pub insert_payment : DebtPaymentModel → Store → Result Store
insert_payment p s = do
  raise_if (is_some (find payment_key p.id s.payments)) Error.debt_id_conflict
  raise_if (any (repeats_payment p.user_id p.client_operation_id) s.payments)
      Error.debt_operation_conflict
  ok (record s { payments = p ∷ s.payments })
