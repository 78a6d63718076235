-- ===== src/Ledger/Balance.antt =====
-- `LedgerMovement` and `calculate_account_balance` (backend/app/domain/ledger/balance.py).
pub mod Sum
use plan_it.Common.{
  Bool, false, not, Option, none, some, List, [], ◌∷◌, if◌then◌else◌, Error, Result, ok, err, ◌>>=◌,
  ◌>>◌, ◌≡◌, arith, refl, ◌+◌, true, zero, suc, inl, inr, ℕ,
}
use plan_it.Common.Int.{ltb_ℤ}
use plan_it.Common.Text.{Text, text_eq}
use plan_it.Common.Time.{Datetime, Instant, to_utc}
use plan_it.Money.{Money, plus, negate, require_positive}
use plan_it.Ledger.Enums.{
  AccountEffect, TransactionKind, TransactionStatus, affects_balance, is_inflow,
}

pub record LedgerMovement : Type 0 where
  pub amount : Money
  pub effect : AccountEffect
  pub kind : TransactionKind
  pub status : TransactionStatus
  pub occurred_at : Instant

-- The constructor, with `__post_init__`.
unfoldable pub movement :
    Money → AccountEffect → TransactionKind → TransactionStatus → Datetime → Result LedgerMovement
unfolding require_positive to_utc
movement amount effect kind status occurred_at = do
  require_positive amount Error.non_positive_amount
  moment ← to_utc occurred_at
  ok (record {
    amount = amount;
    effect = effect;
    kind = kind;
    status = status;
    occurred_at = moment;
  })

unfoldable pub signed_effect : LedgerMovement → Result Money
signed_effect m = if is_inflow m.effect then ok m.amount else negate m.amount

-- `as_of is not None and movement.occurred_at > as_of`.
abbrev pub is_later : Option Instant → Instant → Bool
is_later none at = false
is_later (some as_of) at = ltb_ℤ as_of at

abbrev pub normalize_as_of : Option Datetime → Result (Option Instant)
normalize_as_of none = ok none
normalize_as_of (some as_of) = do moment ← to_utc as_of; ok (some moment)

-- One round of the loop.
unfoldable pub add_movement : Text → Option Instant → Money → LedgerMovement → Result Money
unfolding signed_effect
add_movement currency as_of balance m =
    if not (text_eq m.amount.currency currency)
    then err Error.currency_mismatch
    else if not (affects_balance m.status)
    then ok balance
    else if is_later as_of m.occurred_at
    then ok balance
    else do signed ← signed_effect m; plus balance signed

unfoldable pub add_movements : Text → Option Instant → Money → List LedgerMovement → Result Money
add_movements currency as_of balance [] = ok balance
add_movements currency as_of balance (m ∷ ms) = do
  next ← add_movement currency as_of balance m
  add_movements currency as_of next ms

unfoldable pub calculate_account_balance :
    Money → List LedgerMovement → Option Datetime → Result Money
unfolding add_movements add_movement to_utc
calculate_account_balance opening_balance movements as_of = do
  cutoff ← normalize_as_of as_of
  add_movements opening_balance.currency cutoff opening_balance movements
