-- ===== src/Store/Overdraft.antt =====
-- What the check of the projected balance promises.
use plan_it.Common.{
  ◌≡◌, arith, some, ok, false, Error, ℕ, >>=-eq-ok, or_raise, raise_if, ◌∙◌, ap, or_raise-eq-ok,
  subst,
}
use plan_it.Common.Time.{Instant, max_instant}
use plan_it.Common.Int.{◌+ℤ◌, pos, ◌≤ℤ◌, ◌-ℤ◌, ℤ, ltb_ℤ}
use plan_it.Store.Balance.{get_balance, require_projected_balance, get_account, movement_total}
use plan_it.Store.{AccountModel, Store}
use plan_it.Money.{in_range, Money, minus}
use plan_it.Ledger.Enums.{AccountEffect}
use plan_it.Ledger.Reallocation.Sums.{minus-amount}

pub get_balance-amount :
    (id user : ℕ) (as_of : Instant) (s : Store) {a : AccountModel} {b : Money}
    → get_account id user s ≡ some a
    → get_balance id user as_of s ≡ ok (some b)
    → b.amount ≡ a.opening_balance +ℤ movement_total user id as_of s.transactions
unfolding get_balance in_range
get_balance-amount id user as_of s {a} {b} found h =
    let j = rw (found, get_balance) at h in ground arith

not_negative :
    (a : ℤ) → raise_if (ltb_ℤ a (pos 0)) Error.negative_balance_not_allowed ≡ ok tt → pos 0 ≤ℤ a
not_negative a h = ground arith

-- An account of the user that allows no negative balance covers an outflow that was let through, at
-- the later of the present and the moment of the outflow.
pub require_projected_balance-covers :
    (a : AccountModel) (user : ℕ) (amount : Money) (effective_at now : Instant) (s : Store)
    → get_account a.id user s ≡ some a
    → a.allow_negative ≡ false
    → require_projected_balance a user amount AccountEffect.outflow effective_at now s ≡ ok tt
    → pos 0
      ≤ℤ (a.opening_balance
          +ℤ movement_total user a.id (max_instant now effective_at) s.transactions)
        -ℤ amount.amount
unfolding require_projected_balance
require_projected_balance-covers a user amount effective_at now s owned strict h =
    let as_of = max_instant now effective_at in
    let j = rw strict at h in
    let (found, balanced, h₁) = >>=-eq-ok (get_balance a.id user as_of s) _ j in
    let (balance, present, h₂) = >>=-eq-ok (or_raise found Error.account_not_found) _ h₁ in
    let (projected, less, h₃) = >>=-eq-ok (minus balance amount) _ h₂ in
    let (exact, _, _) = minus-amount balance amount less in
    let total =
      get_balance-amount a.id user as_of s owned
        (balanced ∙ ap ok (or_raise-eq-ok found Error.account_not_found present)) in
    subst (λ b. pos 0 ≤ℤ b -ℤ amount.amount) total
      (subst (λ p. pos 0 ≤ℤ p) exact (not_negative projected.amount h₃))
