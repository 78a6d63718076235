-- ===== src/Ledger/Transfer/Deltas.antt =====
-- What `preview_transfer` adds to and takes from each account.
use plan_it.Common.{
  if◌then◌else◌, ◌∷◌, ◌≡◌, arith, refl, some, none, [], ok, inl, inr, Result, ℕ, Option, ◌==◌, List,
  subst, Bool-cases, sym, >>=-eq-ok, ◌∙◌, ap,
}
use plan_it.Common.Int.{ℤ, pos, ◌+ℤ◌, neg, +ℤ-zero, -ℤ-eq, zero-+ℤ}
use plan_it.Ledger.Transfer.{
  change_delta, zero_deltas, Deltas, TransferFee, more, less, charge_fee, deltas_for,
}
use plan_it.Money.{Money, zero_money}
use plan_it.Ledger.Reallocation.{AccountPosition}
use plan_it.Ledger.Reallocation.Sums.{plus-amount, minus-amount}
use plan_it.Ledger.Reallocation.Laws.{zero_money-amount}

-- The change under an identifier, nothing if there is none.
abbrev pub amount_at : ℕ → Deltas → ℤ
amount_at j [] = pos 0
amount_at j ((i, m) ∷ ds) = if i == j then m.amount else amount_at j ds

-- `x` at the account `k`, nothing elsewhere.
abbrev pub only_at : ℕ → ℤ → ℕ → ℤ
only_at k x j = if k == j then x else pos 0

change_delta-amount :
    (k : ℕ) (change : Money → Result Money) (x : ℤ)
    → ((m m' : Money) → change m ≡ ok m' → m'.amount ≡ m.amount +ℤ x)
    → (ds : Deltas) {ds' : Deltas} (j : ℕ) → change_delta k change ds ≡ ok ds'
    → amount_at j ds' ≡ amount_at j ds +ℤ only_at k x j
unfolding change_delta
change_delta-amount k change x law [] j h = cc
change_delta-amount k change x law ((i, m) ∷ ds) {ds'} j h = elim (Bool-cases (i == k)) [
  | inl own ↦
      let (m', e, done) = >>=-eq-ok (change m) (λ n. ok ((i, n) ∷ ds)) (rw own at h) in
      let same : (i, m') ∷ ds ≡ ds' = cc in
      subst (λ d. amount_at j d ≡ amount_at j ((i, m) ∷ ds) +ℤ only_at k x j) same
        (ground (arith, law m m' e, +ℤ-zero m.amount, +ℤ-zero (amount_at j ds)))
  | inr other ↦
      let (rest, e, done) =
        >>=-eq-ok (change_delta k change ds) (λ r. ok ((i, m) ∷ r)) (rw other at h) in
      let same : (i, m) ∷ rest ≡ ds' = cc in
      subst (λ d. amount_at j d ≡ amount_at j ((i, m) ∷ ds) +ℤ only_at k x j) same
        (ground (arith, change_delta-amount k change x law ds j e, +ℤ-zero m.amount))
]

zero_deltas-amount :
    (ps : List AccountPosition) {ds : Deltas} (j : ℕ)
    → zero_deltas ps ≡ ok ds
    → amount_at j ds ≡ pos 0
unfolding zero_deltas
zero_deltas-amount [] {ds} j h =
    let same : [] ≡ ds = cc in subst (λ d. amount_at j d ≡ pos 0) same refl
zero_deltas-amount (p ∷ ps) {ds} j h =
    let (m, e, more) = >>=-eq-ok (zero_money p.balance.currency) _ h in
    let (rest, e', done) = >>=-eq-ok (zero_deltas ps) (λ r. ok ((p.account_id, m) ∷ r)) more in
    let same : (p.account_id, m) ∷ rest ≡ ds = cc in
    subst (λ d. amount_at j d ≡ pos 0) same
      (ground (arith, zero_money-amount p.balance.currency e, zero_deltas-amount ps j e'))

-- What the fee changes at the account `j`.
abbrev pub fee_at : Option TransferFee → ℕ → ℤ
fee_at none j = pos 0
fee_at (some fee) j = only_at fee.account_id (neg fee.amount.amount) j

less-amount : (a m m' : Money) → less a m ≡ ok m' → m'.amount ≡ m.amount +ℤ neg a.amount
less-amount a m m' h = (minus-amount m a h).0 ∙ -ℤ-eq m.amount a.amount

more-amount : (a m m' : Money) → more a m ≡ ok m' → m'.amount ≡ m.amount +ℤ a.amount
more-amount a m m' h = (plus-amount m a h).0

charge_fee-amount :
    (fee : Option TransferFee) (ds : Deltas) {ds' : Deltas} (j : ℕ)
    → charge_fee fee ds ≡ ok ds'
    → amount_at j ds' ≡ amount_at j ds +ℤ fee_at fee j
charge_fee-amount none ds {ds'} j h =
    let same : ds ≡ ds' = cc in rw same (sym (+ℤ-zero (amount_at j ds')))
charge_fee-amount (some fee) ds j h =
    change_delta-amount fee.account_id (less fee.amount) (neg fee.amount.amount)
      (less-amount fee.amount) ds j h

-- What the transfer does to the account `j`.
abbrev pub transfer_change : ℕ → ℕ → Money → Money → Option TransferFee → ℕ → ℤ
transfer_change source_id destination_id source_amount resolved fee j =
    only_at source_id (neg source_amount.amount) j
    +ℤ only_at destination_id resolved.amount j
    +ℤ fee_at fee j

pub deltas_for-amount :
    (ps : List AccountPosition) (s d : ℕ) (a r : Money) (fee : Option TransferFee) {ds : Deltas}
    (j : ℕ)
    → deltas_for ps s d a r fee ≡ ok ds
    → amount_at j ds ≡ transfer_change s d a r fee j
unfolding deltas_for
deltas_for-amount ps s d a r fee j h =
    let (zeros, e₀, h₁) = >>=-eq-ok (zero_deltas ps) _ h in
    let (paid, e₁, h₂) = >>=-eq-ok (change_delta s (less a) zeros) _ h₁ in
    let (received, e₂, h₃) = >>=-eq-ok (change_delta d (more r) paid) _ h₂ in
    let none_yet = zero_deltas-amount ps j e₀ in
    let out = change_delta-amount s (less a) (neg a.amount) (less-amount a) zeros j e₁ in
    let in_and_out = change_delta-amount d (more r) r.amount (more-amount r) paid j e₂ in
    charge_fee-amount fee received j h₃
    ∙ ap (λ t. t +ℤ fee_at fee j)
        (in_and_out
          ∙ ap (λ t. t +ℤ only_at d r.amount j)
              (out ∙ ap (λ t. t +ℤ only_at s (neg a.amount) j) none_yet ∙ zero-+ℤ _))
