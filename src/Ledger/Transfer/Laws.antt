-- ===== src/Ledger/Transfer/Laws.antt =====
-- A transfer changes the accounts by what the command says, and nothing else.
use plan_it.Common.{
  if◌then◌else◌, ◌∷◌, ◌≡◌, arith, refl, some, [], ok, true, false, Error, ℕ, List, or_raise,
  >>=-eq-ok, subst, lookup, ap₂, ◌⊎◌, ◌∙◌, ap, mem, or_raise-eq-ok,
}
use plan_it.Common.Int.{ℤ, ◌+ℤ◌, pos, int_laws, ◌≤ℤ◌, +ℤ_interchange, +ℤ-zero, zero-+ℤ}
use plan_it.Ledger.Transfer.{Deltas, impact, impacts_for, TransferAccountImpact}
use plan_it.Ledger.Transfer.Deltas.{amount_at, only_at}
use plan_it.Money.{Money, plus}
use plan_it.Ledger.Reallocation.{AccountPosition, has_duplicate, ids}
use plan_it.Ledger.Reallocation.Sums.{plus-amount}

abbrev pub sum_change : List TransferAccountImpact → ℤ
sum_change [] = pos 0
sum_change (i ∷ is) = i.delta.amount +ℤ sum_change is

-- An impact is made for a position: it keeps account, version and balance, changes the balance by
-- what the transfer does to the account, and a negative balance after it needs leave.
pub record IsImpact (change : ℕ → ℤ) (p : AccountPosition) (i : TransferAccountImpact)
    : Type 0 where
  pub same_account : i.account_id ≡ p.account_id
  pub same_version : i.version ≡ p.version
  pub same_balance : i.before ≡ p.balance
  pub same_change : i.delta.amount ≡ change p.account_id
  pub reaches : i.after.amount ≡ i.before.amount +ℤ i.delta.amount
  pub same_currency : i.after.currency ≡ p.balance.currency
  pub allowed : (p.allow_negative ≡ true) ⊎ (pos 0 ≤ℤ i.after.amount)

-- One impact for each position, in the order of the positions.
abbrev pub AreImpacts : (ℕ → ℤ) → List AccountPosition → List TransferAccountImpact → Type 0
AreImpacts change [] [] = Unit
AreImpacts change [] (i ∷ is) = ⊥
AreImpacts change (p ∷ ps) [] = ⊥
AreImpacts change (p ∷ ps) (i ∷ is) = IsImpact change p i × AreImpacts change ps is

lookup-amount_at :
    (j : ℕ) (ds : Deltas) {m : Money} → lookup j ds ≡ some m → m.amount ≡ amount_at j ds
lookup-amount_at j [] h = cc
lookup-amount_at j ((i, n) ∷ ds) {m} h = ground (arith, lookup-amount_at j ds {m = m})

impact-IsImpact :
    (change : ℕ → ℤ) (ds : Deltas) (p : AccountPosition) {i : TransferAccountImpact}
    → amount_at p.account_id ds ≡ change p.account_id
    → impact ds p ≡ ok i
    → IsImpact change p i
unfolding impact
impact-IsImpact change ds p {i} law h =
    let (delta, found, h₁) = >>=-eq-ok (or_raise (lookup p.account_id ds) Error.value_error) _ h in
    let (after, added, h₂) = >>=-eq-ok (plus p.balance delta) _ h₁ in
    let right =
      lookup-amount_at p.account_id ds (or_raise-eq-ok (lookup p.account_id ds) _ found) ∙ law in
    let (sum, code, _) = plus-amount p.balance delta added in ground arith

pub impacts_for-AreImpacts :
    (change : ℕ → ℤ) (ds : Deltas)
    → ((j : ℕ) → amount_at j ds ≡ change j)
    → (ps : List AccountPosition) {is : List TransferAccountImpact} → impacts_for ds ps ≡ ok is
    → AreImpacts change ps is
unfolding impacts_for
impacts_for-AreImpacts change ds law [] {is} h =
    let same : [] ≡ is = cc in subst (AreImpacts change []) same tt
impacts_for-AreImpacts change ds law (p ∷ ps) {is} h =
    let (i, made, h₁) = >>=-eq-ok (impact ds p) _ h in
    let (rest, others, done) = >>=-eq-ok (impacts_for ds ps) (λ r. ok (i ∷ r)) h₁ in
    let same : i ∷ rest ≡ is = cc in
    subst (AreImpacts change (p ∷ ps)) same (
      impact-IsImpact change ds p (law p.account_id) made,
      impacts_for-AreImpacts change ds law ps others,
    )

-- The sum of a change over the positions.
abbrev pub sum_over : (ℕ → ℤ) → List AccountPosition → ℤ
sum_over change [] = pos 0
sum_over change (p ∷ ps) = change p.account_id +ℤ sum_over change ps

pub sum_change-eq :
    (change : ℕ → ℤ) (ps : List AccountPosition) (is : List TransferAccountImpact)
    → AreImpacts change ps is
    → sum_change is ≡ sum_over change ps
sum_change-eq change [] [] h = refl
sum_change-eq change [] (i ∷ is) h = absurd h
sum_change-eq change (p ∷ ps) [] h = absurd h
sum_change-eq change (p ∷ ps) (i ∷ is) (one, more) =
    ap₂ (λ a b. a +ℤ b) one.same_change (sum_change-eq change ps is more)

pub sum_over-add :
    (f g : ℕ → ℤ) (ps : List AccountPosition)
    → sum_over (λ j. f j +ℤ g j) ps ≡ sum_over f ps +ℤ sum_over g ps
sum_over-add f g [] = omega int_laws
sum_over-add f g (p ∷ ps) =
    ap (λ t. f p.account_id +ℤ g p.account_id +ℤ t) (sum_over-add f g ps)
    ∙ +ℤ_interchange (f p.account_id) (g p.account_id) (sum_over f ps) (sum_over g ps)

-- A change at one account counts once where identifiers are unique.
pub sum_over-only_at :
    (k : ℕ) (x : ℤ) (ps : List AccountPosition)
    → has_duplicate (ids ps) ≡ false
    → sum_over (only_at k x) ps ≡ (if mem k (ids ps) then x else pos 0)
sum_over-only_at k x [] u = refl
sum_over-only_at k x (p ∷ ps) u =
    ground (arith, sum_over-only_at k x ps, +ℤ-zero x, zero-+ℤ (sum_over (only_at k x) ps))

pub sum_over-zero : (ps : List AccountPosition) → sum_over (λ j. pos 0) ps ≡ pos 0
sum_over-zero [] = refl
sum_over-zero (p ∷ ps) = ground (arith, sum_over-zero ps, zero-+ℤ (sum_over (λ j. pos 0) ps))

pub sum_over-known :
    (k : ℕ) (x : ℤ) (ps : List AccountPosition)
    → has_duplicate (ids ps) ≡ false
    → mem k (ids ps) ≡ true
    → sum_over (only_at k x) ps ≡ x
sum_over-known k x ps u known = rw (sum_over-only_at k x ps u, known) refl
