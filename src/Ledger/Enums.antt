-- ===== src/Ledger/Enums.antt =====
-- `AccountEffect`, `TransactionStatus`, `TransactionKind`, `AccountStatus`
-- (backend/app/domain/ledger/enums.py).
use plan_it.Common.{Bool, true, false}

pub data AccountEffect : Type 0 where
  inflow outflow : AccountEffect

pub data TransactionStatus : Type 0 where
  draft posted reversed voided : TransactionStatus

pub data TransactionKind : Type 0 where
  expense income transfer_out transfer_in transfer_fee refund loan_principal_out : TransactionKind
  loan_principal_in debt_repayment_in debt_repayment_out : TransactionKind
  reconciliation_adjustment reversal : TransactionKind

pub data AccountStatus : Type 0 where
  active archived closed : AccountStatus

abbrev pub affects_balance : TransactionStatus → Bool
affects_balance TransactionStatus.posted = true
affects_balance TransactionStatus.reversed = true
affects_balance _ = false

-- `effect is AccountEffect.INFLOW`, and the other tests of identity.
abbrev pub is_inflow : AccountEffect → Bool
is_inflow AccountEffect.inflow = true
is_inflow _ = false

abbrev pub is_expense : TransactionKind → Bool
is_expense TransactionKind.expense = true
is_expense _ = false

abbrev pub is_reversal : TransactionKind → Bool
is_reversal TransactionKind.reversal = true
is_reversal _ = false

abbrev pub is_draft : TransactionStatus → Bool
is_draft TransactionStatus.draft = true
is_draft _ = false

abbrev pub is_posted : TransactionStatus → Bool
is_posted TransactionStatus.posted = true
is_posted _ = false

abbrev pub is_reversed : TransactionStatus → Bool
is_reversed TransactionStatus.reversed = true
is_reversed _ = false

abbrev pub is_active : AccountStatus → Bool
is_active AccountStatus.active = true
is_active _ = false
