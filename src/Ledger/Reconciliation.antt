-- ===== src/Ledger/Reconciliation.antt =====
-- `preview_reconciliation` (backend/app/domain/ledger/reconciliation.py).
use plan_it.Common.{◌>>◌, ◌>>=◌, ◌≡◌, arith, ok, Error, Result, not, ℕ, raise_if}
use plan_it.Common.Int.{ℤ, ◌+ℤ◌, leb_ℤ, +ℤ--ℤ, pos}
use plan_it.Common.Time.{to_utc, Datetime, Instant}
use plan_it.Common.Text.{text_eq_iff, text_eq}
use plan_it.Money.{Money, minus}

-- What the fingerprint is made of: the account, its version, the calculated balance and the moment.
pub record ReconciliationSource : Type 0 where
  pub account_id : ℕ
  pub account_version : ℤ
  pub calculated : ℤ
  pub moment : Instant

pub record ReconciliationPreview (D : Type 0) : Type 0 where
  pub account_id : ℕ
  pub calculated_balance : Money
  pub actual_balance : Money
  pub delta : Money
  pub effective_at : Instant
  pub source_fingerprint : D

-- `digest` stands for the text of the source, its UTF-8 bytes and their SHA-256.
module _ {D : Type 0} (digest : ReconciliationSource → D) where
  unfoldable pub preview_reconciliation :
      ℕ → ℤ → Money → Money → Datetime → Result (ReconciliationPreview D)
  unfolding to_utc minus
  preview_reconciliation account_id account_version calculated_balance actual_balance effective_at =
      do
        raise_if (leb_ℤ account_version (pos 0)) Error.invalid_version
        moment ← to_utc effective_at
        raise_if (not (text_eq calculated_balance.currency actual_balance.currency))
            Error.currency_mismatch
        delta ← minus actual_balance calculated_balance
        ok (record {
          account_id = account_id;
          calculated_balance = calculated_balance;
          actual_balance = actual_balance;
          delta = delta;
          effective_at = moment;
          source_fingerprint = digest (record {
            account_id = account_id;
            account_version = account_version;
            calculated = calculated_balance.amount;
            moment = moment;
          });
        })

  -- The adjustment that a preview proposes takes the calculated balance to the actual one, in their
  -- common currency, and the preview keeps both balances.
  pub preview_reconciliation_closes :
      (id : ℕ) (version : ℤ) (calculated actual : Money) (at : Datetime)
      {p : ReconciliationPreview D}
      → preview_reconciliation id version calculated actual at ≡ ok p
      → (calculated.amount +ℤ p.delta.amount ≡ actual.amount)
        × (p.delta.currency ≡ actual.currency)
        × (calculated.currency ≡ actual.currency)
        × (p.calculated_balance ≡ calculated)
        × (p.actual_balance ≡ actual)
  unfolding preview_reconciliation
  preview_reconciliation_closes id version calculated actual at h = ground (
    arith,
    text_eq_iff calculated.currency actual.currency,
    +ℤ--ℤ calculated.amount actual.amount,
  )
