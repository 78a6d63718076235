-- ===== src/Ledger/Policies/Laws.antt =====
-- Which transactions can be edited, posted and reversed.
use plan_it.Common.{◌≡◌, arith, ok, ◌↔◌, ◌⊎◌}
use plan_it.Ledger.Policies.{require_reversible}
use plan_it.Ledger.Enums.{TransactionStatus, TransactionKind}

-- A transaction can be reversed exactly when it is a posted expense or income.
pub require_reversible_iff :
    (status : TransactionStatus) (kind : TransactionKind)
    → (require_reversible status kind ≡ ok tt) ↔ (
        (status ≡ TransactionStatus.posted)
        × ((kind ≡ TransactionKind.expense) ⊎ (kind ≡ TransactionKind.income)))
unfolding require_reversible
require_reversible_iff status kind = ground arith
