-- ===== src/Ledger/Transfer.antt =====
-- `preview_transfer` and the types around it (backend/app/domain/ledger/transfers.py).
pub mod Deltas
pub mod Laws
pub mod Preview
pub mod Rates
use plan_it.Common.{
  if◌then◌else◌, ◌>>◌, ◌>>=◌, ◌∷◌, ◌≡◌, arith, refl, ◌+◌, some, none, [], ok, err, true, false,
  zero, suc, inl, inr, Error, Result, not, ℕ, Option, List, Bool, raise_if, or_raise, ◌==◌, ◌&&◌,
  mem, lookup, get_or, ◌^◌, is_some, ◌-◌, ◌||◌,
}
use plan_it.Common.Int.{ℤ, negsuc, ltb_ℤ, pos, leb_ℤ, eqb_ℤ}
use plan_it.Common.Text.{Text, text_eq}
use plan_it.Money.{zero_money, plus, require_positive, Money, minus, to_decimal, scale}
use plan_it.Ledger.Reallocation.{
  AccountPosition, FingerprintPart, has_duplicate, fingerprint_positions, ids,
}
use plan_it.Decimal.{Decimal, ltb_dec, Number, dec, quantize, mul, finite, special}

pub record TransferFee : Type 0 where
  pub account_id : ℕ
  pub amount : Money

pub record TransferAccountImpact : Type 0 where
  pub account_id : ℕ
  pub before : Money
  pub delta : Money
  pub after : Money
  pub version : ℤ

pub record TransferPreview (D : Type 0) : Type 0 where
  pub source_account_id : ℕ
  pub destination_account_id : ℕ
  pub source_amount : Money
  pub destination_amount : Money
  pub fx_rate : Option Decimal
  pub fee : Option TransferFee
  pub impacts : List TransferAccountImpact
  pub source_fingerprint : D

-- The exponent of `_FX_SCALE`, and `_MAX_FX_RATE`.
abbrev pub fx_scale : ℤ
fx_scale = negsuc 11

abbrev pub max_fx_rate : Decimal
max_fx_rate = dec (pos (10 ^ 30 - 1)) fx_scale

-- The precision that the two computations with rates set.
abbrev pub fx_prec : ℕ
fx_prec = 64

-- Refuses a rate that is not positive or out of range, and brings it to twelve decimals.
unfoldable pub normalize_finite_rate : Decimal → Result (Option Decimal)
unfolding ltb_dec quantize
normalize_finite_rate value = do
  raise_if (ltb_ℤ value.exponent fx_scale) Error.fx_rate_precision_exceeded
  raise_if (leb_ℤ value.coefficient (pos 0) || ltb_dec max_fx_rate value) Error.invalid_fx_rate
  normalized ← quantize fx_prec value fx_scale
  ok (some (dec normalized fx_scale))

unfoldable pub normalize_fx_rate : Option Number → Result (Option Decimal)
unfolding normalize_finite_rate
normalize_fx_rate none = ok none
normalize_fx_rate (some special) = err Error.invalid_fx_rate
normalize_fx_rate (some (finite value)) = normalize_finite_rate value

-- `by_id[account_id]`, which the checks before it have found.
pub position_of : ℕ → List AccountPosition → Result AccountPosition
position_of k [] = err Error.value_error
position_of k (p ∷ ps) = if p.account_id == k then ok p else position_of k ps

abbrev pub fee_ids : Option TransferFee → List ℕ
fee_ids none = []
fee_ids (some fee) = fee.account_id ∷ []

abbrev pub all_in : List ℕ → List ℕ → Bool
all_in [] known = true
all_in (k ∷ ks) known = mem k known && all_in ks known

-- `set(a) == set(b)`.
abbrev pub same_set : List ℕ → List ℕ → Bool
same_set a b = all_in a b && all_in b a

abbrev pub check_fee : Option TransferFee → Result (Unit {0})
check_fee none = ok tt
check_fee (some fee) = do require_positive fee.amount Error.non_positive_amount; ok tt

-- The checks up to the accounts, in the order of the source.
unfoldable pub check_accounts :
    List AccountPosition → ℕ → ℕ → Money → Option TransferFee → Result (Unit {0})
unfolding require_positive
check_accounts positions source_id destination_id source_amount fee = do
  raise_if (source_id == destination_id) Error.same_transfer_account
  require_positive source_amount Error.non_positive_amount
  raise_if (has_duplicate (ids positions)) Error.duplicate_account
  check_fee fee
  raise_if (not (same_set (ids positions) (source_id ∷ destination_id ∷ fee_ids fee)))
      Error.unauthorized_entity

-- Between accounts of one currency the amounts are equal and there is no rate.
unfoldable pub resolve_same_currency : Text → Money → Option Money → Option Decimal → Result Money
unfolding require_positive
resolve_same_currency currency source_amount destination_amount rate = do
  let resolved = get_or destination_amount source_amount
  raise_if (not (text_eq resolved.currency currency)) Error.currency_mismatch
  require_positive resolved Error.non_positive_amount
  raise_if (is_some rate || not (eqb_ℤ resolved.amount source_amount.amount))
      Error.currency_mismatch
  ok resolved

-- Between currencies the destination amount is the product with the rate, rounded half to even.
unfoldable pub resolve_converted : Text → Money → Option Money → Option Decimal → Result Money
unfolding require_positive
resolve_converted currency source_amount none rate = err Error.currency_mismatch
resolve_converted currency source_amount (some destination) none = err Error.currency_mismatch
resolve_converted currency source_amount (some destination) (some rate) = do
  raise_if (not (text_eq destination.currency currency)) Error.currency_mismatch
  require_positive destination Error.non_positive_amount
  expected ← quantize fx_prec (mul fx_prec (to_decimal source_amount) rate) scale
  raise_if (not (eqb_ℤ destination.amount expected)) Error.fx_amount_mismatch
  ok destination

unfoldable pub resolve_destination :
    AccountPosition → AccountPosition → Money → Option Money → Option Decimal → Result Money
unfolding resolve_same_currency resolve_converted
resolve_destination source destination source_amount destination_amount rate =
    if text_eq source.balance.currency destination.balance.currency
    then resolve_same_currency destination.balance.currency source_amount destination_amount rate
    else resolve_converted destination.balance.currency source_amount destination_amount rate

-- The fee is in the currency of the account that pays it.
unfoldable pub check_fee_currency : List AccountPosition → Option TransferFee → Result (Unit {0})
unfolding position_of
check_fee_currency positions none = ok tt
check_fee_currency positions (some fee) = do
  payer ← position_of fee.account_id positions
  raise_if (not (text_eq payer.balance.currency fee.amount.currency)) Error.currency_mismatch

abbrev pub Deltas : Type 0
Deltas = List (ℕ × Money)

-- `{position.account_id: Money.zero(position.balance.currency) for position in positions}`.
pub zero_deltas : List AccountPosition → Result Deltas
unfolding zero_money
zero_deltas [] = ok []
zero_deltas (p ∷ ps) = do
  nothing ← zero_money p.balance.currency
  rest ← zero_deltas ps
  ok ((p.account_id, nothing) ∷ rest)

-- `deltas[k] = change(deltas[k])`.
pub change_delta : ℕ → (Money → Result Money) → Deltas → Result Deltas
change_delta k change [] = err Error.value_error
change_delta k change ((j, m) ∷ ds) =
    let rest = change_delta k change ds in
    if j == k then (do m' ← change m; ok ((j, m') ∷ ds)) else (do ds' ← rest; ok ((j, m) ∷ ds'))

abbrev pub less : Money → Money → Result Money
less amount m = minus m amount

abbrev pub more : Money → Money → Result Money
more amount m = plus m amount

abbrev pub charge_fee : Option TransferFee → Deltas → Result Deltas
charge_fee none deltas = ok deltas
charge_fee (some fee) deltas = change_delta fee.account_id (less fee.amount) deltas

unfoldable pub impact : Deltas → AccountPosition → Result TransferAccountImpact
unfolding plus
impact deltas p = do
  delta ← or_raise (lookup p.account_id deltas) Error.value_error
  after ← plus p.balance delta
  raise_if (ltb_ℤ after.amount (pos 0) && not p.allow_negative) Error.negative_balance_not_allowed
  ok (record {
    account_id = p.account_id;
    before = p.balance;
    delta = delta;
    after = after;
    version = p.version;
  })

pub impacts_for : Deltas → List AccountPosition → Result (List TransferAccountImpact)
impacts_for deltas [] = ok []
impacts_for deltas (p ∷ ps) = do i ← impact deltas p; rest ← impacts_for deltas ps; ok (i ∷ rest)

-- The changes of the balances: out of the source, into the destination, and the fee.
unfoldable pub deltas_for :
    List AccountPosition → ℕ → ℕ → Money → Money → Option TransferFee → Result Deltas
unfolding zero_deltas change_delta plus minus
deltas_for positions source_id destination_id source_amount resolved fee = do
  zeros ← zero_deltas positions
  paid ← change_delta source_id (less source_amount) zeros
  received ← change_delta destination_id (more resolved) paid
  charge_fee fee received

module _ {D : Type 0} (digest : List FingerprintPart → D) where
  unfoldable pub preview_transfer :
      List AccountPosition
      → ℕ
      → ℕ
      → Money
      → Option Money
      → Option Number
      → Option TransferFee
      → Result (TransferPreview D)
  unfolding check_accounts position_of normalize_fx_rate resolve_destination check_fee_currency
      deltas_for impacts_for impact fingerprint_positions
  preview_transfer positions source_id destination_id source_amount destination_amount fx_rate fee =
      do
        check_accounts positions source_id destination_id source_amount fee
        source ← position_of source_id positions
        destination ← position_of destination_id positions
        raise_if (not (text_eq source.balance.currency source_amount.currency))
            Error.currency_mismatch
        rate ← normalize_fx_rate fx_rate
        resolved ← resolve_destination source destination source_amount destination_amount rate
        check_fee_currency positions fee
        deltas ← deltas_for positions source_id destination_id source_amount resolved fee
        impacts ← impacts_for deltas positions
        ok (record {
          source_account_id = source_id;
          destination_account_id = destination_id;
          source_amount = source_amount;
          destination_amount = resolved;
          fx_rate = rate;
          fee = fee;
          impacts = impacts;
          source_fingerprint = fingerprint_positions digest positions;
        })
