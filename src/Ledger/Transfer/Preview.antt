-- ===== src/Ledger/Transfer/Preview.antt =====
-- The promise of `preview_transfer` as a whole.
use plan_it.Common.{
  ◌≡◌, arith, some, none, ok, true, false, not, ℕ, List, Option, ◌≢◌, >>=-eq-ok, mem,
  raise_if-eq-ok, ◌∙◌, subst, ok-injective, ap₂,
}
use plan_it.Common.Int.{ℤ, pos, neg, ◌<ℤ◌, ◌+ℤ◌}
use plan_it.Common.Text.{text_eq}
use plan_it.Ledger.Transfer.{
  check_accounts, TransferFee, preview_transfer, TransferPreview, TransferAccountImpact, all_in,
  position_of, fee_ids, normalize_fx_rate, resolve_destination, check_fee_currency, deltas_for,
  impacts_for,
}
use plan_it.Ledger.Reallocation.{
  AccountPosition, FingerprintPart, has_duplicate, ids, fingerprint_positions,
}
use plan_it.Money.{Money}
use plan_it.Ledger.Transfer.Laws.{
  sum_over, AreImpacts, sum_change, sum_over-zero, sum_over-only_at, impacts_for-AreImpacts,
  sum_change-eq, sum_over-add, sum_over-known,
}
use plan_it.Decimal.{Decimal, Number}
use plan_it.Ledger.Transfer.Deltas.{transfer_change, fee_at, deltas_for-amount, only_at}

-- The sum of the fee over the accounts.
abbrev pub fee_total : Option TransferFee → ℤ
fee_total none = pos 0
fee_total (some fee) = neg fee.amount.amount

-- What the account checks leave to rely on.
pub record IsChecked (ps : List AccountPosition) (s d : ℕ) (a : Money) (fee : Option TransferFee)
    : Type 0 where
  pub different : s ≢ d
  pub positive : pos 0 <ℤ a.amount
  pub unique : has_duplicate (ids ps) ≡ false
  pub source_known : mem s (ids ps) ≡ true
  pub destination_known : mem d (ids ps) ≡ true
  pub payer_known : all_in (fee_ids fee) (ids ps) ≡ true

check_accounts-IsChecked :
    (ps : List AccountPosition) (s d : ℕ) (a : Money) (fee : Option TransferFee) {u : Unit {0}}
    → check_accounts ps s d a fee ≡ ok u
    → IsChecked ps s d a fee
unfolding check_accounts
check_accounts-IsChecked ps s d a fee h = ground arith

fee_conserved :
    (ps : List AccountPosition) (fee : Option TransferFee)
    → has_duplicate (ids ps) ≡ false
    → all_in (fee_ids fee) (ids ps) ≡ true
    → sum_over (fee_at fee) ps ≡ fee_total fee
fee_conserved ps none u k = sum_over-zero ps
fee_conserved ps (some fee) u k =
    sum_over-only_at fee.account_id (neg fee.amount.amount) ps u ∙ ground arith

-- The changes of a checked transfer add up to the difference of the amounts less the fee.
transfer_change-sum :
    (ps : List AccountPosition) (s d : ℕ) (a r : Money) (fee : Option TransferFee)
    → IsChecked ps s d a fee
    → sum_over (transfer_change s d a r fee) ps ≡ neg a.amount +ℤ r.amount +ℤ fee_total fee
transfer_change-sum ps s d a r fee c =
    sum_over-add (λ j. only_at s (neg a.amount) j +ℤ only_at d r.amount j) (fee_at fee) ps
    ∙ ap₂ (λ x y. x +ℤ y)
        (sum_over-add (only_at s (neg a.amount)) (only_at d r.amount) ps
          ∙ ap₂ (λ x y. x +ℤ y) (sum_over-known s (neg a.amount) ps c.unique c.source_known)
              (sum_over-known d r.amount ps c.unique c.destination_known))
        (fee_conserved ps fee c.unique c.payer_known)

module _ {D : Type 0} (digest : List FingerprintPart → D) where
  abbrev result :
      List AccountPosition
      → ℕ
      → ℕ
      → Money
      → Money
      → Option Decimal
      → Option TransferFee
      → List TransferAccountImpact
      → TransferPreview D
  result ps s d a r rate fee is = record {
    source_account_id = s;
    destination_account_id = d;
    source_amount = a;
    destination_amount = r;
    fx_rate = rate;
    fee = fee;
    impacts = is;
    source_fingerprint = fingerprint_positions digest ps;
  }

  -- What a successful preview promises for a command.
  pub record IsTransfer (ps : List AccountPosition) (s d : ℕ) (a : Money) (fee : Option TransferFee)
      (v : TransferPreview D) : Type 0 where
    pub checked : IsChecked ps s d a fee
    pub described : AreImpacts (transfer_change s d a v.destination_amount fee) ps v.impacts
    pub conserved :
        sum_change v.impacts ≡ neg a.amount +ℤ v.destination_amount.amount +ℤ fee_total fee

  -- A preview that succeeds is for two different accounts and a positive amount, and has one impact
  -- for each account, in order: the source loses the amount, the destination gains the resolved
  -- amount, the payer of the fee loses the fee, and no other balance changes; a balance below zero is
  -- only for an account that allows it; all changes together are the resolved amount less the source
  -- amount and the fee.
  pub preview_transfer_balances :
      (ps : List AccountPosition) (s d : ℕ) (a : Money) (destination : Option Money)
      (rate : Option Number) (fee : Option TransferFee) {v : TransferPreview D}
      → preview_transfer digest ps s d a destination rate fee ≡ ok v
      → IsTransfer ps s d a fee v
  unfolding preview_transfer
  preview_transfer_balances ps s d a destination rate fee {v} h =
      let (_, passed, h₁) = >>=-eq-ok (check_accounts ps s d a fee) _ h in
      let (source, e₁, h₂) = >>=-eq-ok (position_of s ps) _ h₁ in
      let (target, e₂, h₃) = >>=-eq-ok (position_of d ps) _ h₂ in
      let (own, h₄) = raise_if-eq-ok (not (text_eq source.balance.currency a.currency)) _ _ h₃ in
      let (known_rate, e₅, h₅) = >>=-eq-ok (normalize_fx_rate rate) _ h₄ in
      let (resolved, e₆, h₆) =
        >>=-eq-ok (resolve_destination source target a destination known_rate) _ h₅ in
      let (_, _, h₇) = >>=-eq-ok (check_fee_currency ps fee) _ h₆ in
      let (deltas, e₈, h₈) = >>=-eq-ok (deltas_for ps s d a resolved fee) _ h₇ in
      let (impacts, e₉, h₉) = >>=-eq-ok (impacts_for deltas ps) _ h₈ in
      let checked = check_accounts-IsChecked ps s d a fee passed in
      let change = transfer_change s d a resolved fee in
      let described =
        impacts_for-AreImpacts change deltas (λ j. deltas_for-amount ps s d a resolved fee j e₈) ps
          e₉ in
      let done : result ps s d a resolved known_rate fee impacts ≡ v = ok-injective h₉ in
      subst (IsTransfer ps s d a fee) done (record {
        checked = checked;
        described = described;
        conserved =
            sum_change-eq change ps impacts described
            ∙ transfer_change-sum ps s d a resolved fee checked;
      })
