-- ===== src/Ledger/Tests/Transfers.antt =====
-- Transfers, reallocations and reconciliations at concrete inputs; the digest keeps the parts.
use mathlib.Core.Option.{some-injective}
use plan_it.Common.{
  ◌∷◌, ◌≡◌, refl, some, none, [], ok, List, Option, arith, ◌⊎◌, subst, ◌*◌, ◌≢◌, ◌^◌,
}
use plan_it.Common.Int.{◌+ℤ◌, negsuc, ◌-ℤ◌, neg, pos, ◌<ℤ◌, with_sign, ◌*ℤ◌, magnitude, pos_part}
use plan_it.Common.Text.{text_eq}
use plan_it.Common.Time.{Datetime}
use plan_it.Ledger.Transfer.Preview.{IsTransfer, preview_transfer_balances}
use plan_it.Ledger.Transfer.{
  TransferPreview, preview_transfer, TransferFee, resolve_destination, normalize_fx_rate, fx_scale,
}
use plan_it.Ledger.Reallocation.{
  FingerprintPart, AccountPosition, preview_reallocation, ReallocationPreview, Requests,
  reallocation_line,
}
use plan_it.Ledger.Tests.Data.{dollars, at, usd, eur, euros}
use plan_it.Decimal.{Decimal, Number, dec, mul, finite, quantize}
use plan_it.Ledger.Reconciliation.{
  ReconciliationPreview, preview_reconciliation_closes, ReconciliationSource,
  preview_reconciliation,
}
use plan_it.Money.{matches_currency, plus}
use plan_it.Ledger.Reallocation.Laws.{IsReallocation, preview_reallocation_balances}
use plan_it.Money.Bounds.{IsMoney}
use plan_it.Ledger.Transfer.Rates.{IsRate, resolve_destination_amount, normalize_fx_rate_exact}
use plan_it.Decimal.Rounding.{IsHalfEven}

abbrev parts : List FingerprintPart → List FingerprintPart
parts ps = ps

abbrev wallet_and_bank : List AccountPosition
wallet_and_bank = at 7 (dollars 100) ∷ at 3 (dollars 20) ∷ []

abbrev small_fee : Option TransferFee
small_fee = some (record { account_id = 7; amount = dollars 1 })

abbrev moved_preview : TransferPreview (List FingerprintPart)
moved_preview = record {
  source_account_id = 7;
  destination_account_id = 3;
  source_amount = dollars 40;
  destination_amount = dollars 40;
  fx_rate = none;
  fee = small_fee;
  impacts =
      record {
        account_id = 7;
        before = dollars 100;
        delta = record { amount = negsuc 409_999; currency = usd };
        after = dollars 59;
        version = pos 1;
      }
      ∷ record {
        account_id = 3;
        before = dollars 20;
        delta = dollars 40;
        after = dollars 60;
        version = pos 1;
      }
      ∷ [];
  source_fingerprint = (3, pos 1, pos 200_000) ∷ (7, pos 1, pos 1_000_000) ∷ [];
}

transfer_run :
    preview_transfer parts wallet_and_bank 7 3 (dollars 40) none none small_fee ≡ ok moved_preview
unfolding preview_transfer ◌+ℤ◌ ◌-ℤ◌ neg text_eq
transfer_run = refl

preview_transfer_balances_example :
    IsTransfer parts wallet_and_bank 7 3 (dollars 40) small_fee moved_preview
preview_transfer_balances_example =
    preview_transfer_balances parts wallet_and_bank 7 3 (dollars 40) none none small_fee
      transfer_run

abbrev wishes : Requests
wishes = (3, dollars 50) ∷ []

abbrev shifted_preview : ReallocationPreview (List FingerprintPart)
shifted_preview = record {
  fixed_total = dollars 120;
  balancing_account_id = 7;
  lines =
      record {
        account_id = 7;
        before = dollars 100;
        target = dollars 70;
        delta = record { amount = negsuc 299_999; currency = usd };
      }
      ∷ record { account_id = 3; before = dollars 20; target = dollars 50; delta = dollars 30 }
      ∷ [];
  source_fingerprint = (3, pos 1, pos 200_000) ∷ (7, pos 1, pos 1_000_000) ∷ [];
}

reallocation_run :
    preview_reallocation parts wallet_and_bank (dollars 120) 7 wishes ≡ ok shifted_preview
unfolding preview_reallocation ◌+ℤ◌ ◌-ℤ◌ text_eq plus reallocation_line
reallocation_run = refl

preview_reallocation_balances_example :
    IsReallocation parts wallet_and_bank (dollars 120) 7 wishes shifted_preview
preview_reallocation_balances_example =
    preview_reallocation_balances parts wallet_and_bank (dollars 120) 7 wishes reallocation_run

abbrev whole_source : ReconciliationSource → ReconciliationSource
whole_source s = s

abbrev counted : ReconciliationPreview ReconciliationSource
counted = record {
  account_id = 7;
  calculated_balance = dollars 100;
  actual_balance = dollars 90;
  delta = record { amount = negsuc 99_999; currency = usd };
  effective_at = pos 10;
  source_fingerprint = record {
    account_id = 7;
    account_version = pos 1;
    calculated = pos 1_000_000;
    moment = pos 10;
  };
}

reconciliation_run :
    preview_reconciliation whole_source 7
      (pos 1)
      (dollars 100)
      (dollars 90)
      (Datetime.aware (pos 20) (pos 10))
    ≡ ok counted
unfolding preview_reconciliation ◌-ℤ◌ text_eq
reconciliation_run = refl

preview_reconciliation_closes_example :
    (pos 1_000_000 +ℤ counted.delta.amount ≡ pos 900_000)
    × (usd ≡ usd)
    × (usd ≡ usd)
    × (dollars 100 ≡ dollars 100)
    × (dollars 90 ≡ dollars 90)
preview_reconciliation_closes_example =
    preview_reconciliation_closes whole_source 7 (pos 1) (dollars 100) (dollars 90)
      (Datetime.aware (pos 20) (pos 10)) reconciliation_run

-- 1.25, with two decimals.
abbrev five_quarters : Decimal
five_quarters = dec (pos 125) (negsuc 1)

abbrev rate_of_five_quarters : Decimal
rate_of_five_quarters = dec (pos (125 * 10 ^ 10)) fx_scale

rate_run : normalize_fx_rate (some (finite five_quarters)) ≡ ok (some rate_of_five_quarters)
unfolding normalize_fx_rate ◌-ℤ◌
rate_run = refl

normalize_fx_rate_exact_example :
    ((◌≡◌ {A = Option Number} (some (finite five_quarters)) none)
      × (◌≡◌ {A = Option Decimal} (some rate_of_five_quarters) none))
    ⊎ ((d : Decimal) × (n : Decimal) × (◌≡◌ {A = Option Number}
          (some (finite five_quarters))
          (some (finite d)))
        × (◌≡◌ {A = Option Decimal} (some rate_of_five_quarters) (some n))
        × IsRate n
        × (n.coefficient
            ≡ with_sign d.coefficient
                (magnitude d.coefficient * 10 ^ pos_part (d.exponent -ℤ fx_scale))))
normalize_fx_rate_exact_example = normalize_fx_rate_exact (some (finite five_quarters)) rate_run

dollars_40-IsMoney : IsMoney (dollars 40)
unfolding matches_currency
dollars_40-IsMoney = record { within = omega arith; coded = refl }

only-IsRate :
    (n : Decimal) → ◌≡◌ {A = Option Decimal} (some rate_of_five_quarters) (some n) → IsRate n
only-IsRate n e =
    let same : rate_of_five_quarters ≡ n = some-injective _ _ e in
    subst IsRate same (record { twelve = refl; positive = omega arith; within = omega arith })

converted_run :
    resolve_destination
      (at 7 (dollars 100))
      (at 5 (euros 0))
      (dollars 40)
      (some (euros 50))
      (some rate_of_five_quarters)
    ≡ ok (euros 50)
unfolding resolve_destination mul quantize text_eq ◌*ℤ◌ ◌+ℤ◌ ◌-ℤ◌
converted_run = refl

resolve_destination_amount_example :
    (eur ≡ eur)
    × (pos 0 <ℤ pos 500_000)
    × (((usd ≡ eur)
          × (◌≡◌ {A = Option Decimal} (some rate_of_five_quarters) none)
          × (pos 500_000 ≡ pos 400_000))
        ⊎ ((usd ≢ eur)
            × ((n : Decimal) × (◌≡◌ {A = Option Decimal} (some rate_of_five_quarters) (some n))
                × IsHalfEven (pos 400_000 *ℤ n.coefficient) (10 ^ 12) (pos 500_000))))
resolve_destination_amount_example =
    resolve_destination_amount (at 7 (dollars 100)) (at 5 (euros 0)) (dollars 40) (some (euros 50))
      (some rate_of_five_quarters) dollars_40-IsMoney only-IsRate converted_run
