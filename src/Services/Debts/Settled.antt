-- ===== src/Services/Debts/Settled.antt =====
-- Debts that are closed, under any sequence of calls.
use plan_it.Common.{◌≡◌, some, ok, ℕ, List}
use plan_it.Common.Text.{Text}
use plan_it.Common.Time.{Instant}
use plan_it.Store.{DebtModel, Store, debt_key}
use plan_it.Store.Table.{find}
use plan_it.Services.Debts.{
  CreateDebtCommand, create, RepayDebtCommand, repay, CancelDebtCommand, cancel,
}

-- The row under `k` has the property.
abbrev Holds : (DebtModel → Type 0) → ℕ → List DebtModel → Type 0
Holds P k ds = (q : DebtModel) × (find debt_key k ds ≡ some q) × P q

-- Any call of the service that succeeds, at any time, of any user.
module _ (uuid5 : ℕ → Text → ℕ) where
  pub data DebtCall (s : Store) (t : Store) : Type 0 where
    creates :
        (now : Instant) (user : ℕ) (command : CreateDebtCommand)
        → create uuid5 now user command s ≡ ok t
        → DebtCall s t
    repays :
        (now : Instant) (user debt_id : ℕ) (command : RepayDebtCommand)
        → repay uuid5 now user debt_id command s ≡ ok t
        → DebtCall s t
    cancels :
        (now : Instant) (user debt_id : ℕ) (command : CancelDebtCommand) (operation : ℕ)
        → cancel uuid5 now user debt_id command operation s ≡ ok t
        → DebtCall s t

  pub data DebtCalls (s : Store) : Store → Type 0 where
    start : DebtCalls s s
    next : {t u : Store} → DebtCalls s t → DebtCall t u → DebtCalls s u
