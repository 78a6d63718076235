-- ===== src/Ledger/Policies.antt =====
-- The rules on single transactions (backend/app/domain/ledger/transactions.py).
pub mod Laws
use plan_it.Common.{
  if◌then◌else◌, ◌>>◌, ◌>>=◌, ◌∷◌, ◌≡◌, arith, refl, ◌+◌, Option, Bool, ℕ, Result, true, raise_if,
  ok, false, not, Error, some, none, [], err, zero, suc, inl, inr, length, ◌==◌, ltb,
}
use plan_it.Common.Int.{ℤ, pos, ltb_ℤ, ◌+ℤ◌}
use plan_it.Common.Time.{to_utc, Instant, Datetime}
use plan_it.Common.Text.{Text, join, split, strip}
use plan_it.Ledger.Enums.{
  TransactionStatus, TransactionKind, AccountEffect, is_reversal, is_expense, is_draft, is_reversed,
  is_posted,
}

-- `kind in _CORE_KINDS`.
abbrev pub is_core_kind : TransactionKind → Bool
is_core_kind TransactionKind.expense = true
is_core_kind TransactionKind.income = true
is_core_kind _ = false

unfoldable pub require_core_kind : TransactionKind → Result (Unit {0})
require_core_kind kind = raise_if (not (is_core_kind kind)) Error.unsupported_transaction_type

unfoldable pub effect_for : TransactionKind → Result AccountEffect
unfolding require_core_kind
effect_for kind = do
  require_core_kind kind
  ok (if is_expense kind then AccountEffect.outflow else AccountEffect.inflow)

unfoldable pub normalize_timestamp : Datetime → Result Instant
unfolding to_utc
normalize_timestamp value = to_utc value

-- Five minutes, in microseconds.
abbrev pub clock_skew : ℤ
clock_skew = pos 300_000_000

-- `current` is the time of the call, `now or datetime.now(UTC)`.
unfoldable pub require_not_future : Instant → Instant → Result (Unit {0})
require_not_future value current =
    raise_if (ltb_ℤ (current +ℤ clock_skew) value) Error.transaction_in_future

-- The test on the name of the field: runs of white space in a counterparty are joined.
pub data TextField : Type 0 where
  counterparty other_text : TextField

abbrev pub clean_text : TextField → Text → Text
clean_text counterparty value = join (split (strip value))
clean_text other_text value = strip value

unfoldable pub normalize_optional_text : Option Text → TextField → ℕ → Result (Option Text)
normalize_optional_text none field maximum = ok none
normalize_optional_text (some value) field maximum =
    let normalized = clean_text field value in
    if length normalized == 0
    then ok none
    else if ltb maximum (length normalized)
    then err Error.invalid_transaction_text
    else ok (some normalized)

unfoldable pub require_draft : TransactionStatus → Result (Unit {0})
require_draft status = raise_if (not (is_draft status)) Error.transaction_not_draft

unfoldable pub require_reversible : TransactionStatus → TransactionKind → Result (Unit {0})
require_reversible status kind = do
  raise_if (is_reversal kind) Error.reversal_of_reversal_not_allowed
  raise_if (not (is_core_kind kind)) Error.specialized_reversal_required
  raise_if (is_reversed status) Error.transaction_already_reversed
  raise_if (not (is_posted status)) Error.transaction_not_posted
