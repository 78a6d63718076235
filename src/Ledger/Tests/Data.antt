-- ===== src/Ledger/Tests/Data.antt =====
-- Amounts, positions and movements that the tests share.
use plan_it.Common.{◌∷◌, some, [], false, ℕ, Option, ◌*◌}
use plan_it.Common.Text.{Text}
use plan_it.Common.Int.{pos}
use plan_it.Common.Time.{Datetime}
use plan_it.Money.{Money}
use plan_it.Ledger.Balance.{LedgerMovement}
use plan_it.Ledger.Reallocation.{AccountPosition}
use plan_it.Ledger.Enums.{AccountEffect, TransactionStatus, TransactionKind}

abbrev pub usd : Text
usd = b'U' ∷ b'S' ∷ b'D' ∷ []

abbrev pub eur : Text
eur = b'E' ∷ b'U' ∷ b'R' ∷ []

-- A whole number of units.
abbrev pub dollars : ℕ → Money
dollars n = record { amount = pos (n * 10000); currency = usd }

abbrev pub euros : ℕ → Money
euros n = record { amount = pos (n * 10000); currency = eur }

abbrev pub at : ℕ → Money → AccountPosition
at k m = record { account_id = k; balance = m; allow_negative = false; version = pos 1 }

abbrev pub moved : Money → AccountEffect → TransactionStatus → ℕ → LedgerMovement
moved m effect status moment = record {
  amount = m;
  effect = effect;
  kind = TransactionKind.expense;
  status = status;
  occurred_at = pos moment;
}

abbrev pub spent : LedgerMovement
spent = moved (dollars 30) AccountEffect.outflow TransactionStatus.posted 5

abbrev pub earned : LedgerMovement
earned = moved (dollars 50) AccountEffect.inflow TransactionStatus.posted 6

abbrev pub drafted : LedgerMovement
drafted = moved (dollars 7) AccountEffect.outflow TransactionStatus.draft 4

abbrev pub noon : Option Datetime
noon = some (Datetime.aware (pos 20) (pos 10))
