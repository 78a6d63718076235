-- ===== src/Ledger/Balance/Sum.antt =====
-- The balance of an account against the sum of the movements that count.
use plan_it.Common.{
  ◌≡◌, ap, ◌∙◌, not, ◌&&◌, Option, List, [], ◌∷◌, arith, if◌then◌else◌, ok, >>=-eq-ok, ℕ, All, ◌+◌,
  ◌≤◌, refl,
}
use plan_it.Common.Int.{ℤ, pos, ◌+ℤ◌, neg, +ℤ_assoc, +ℤ-zero, magnitude, magnitude-+ℤ, neg_parts}
use plan_it.Common.Text.{Text, text_eq_iff}
use plan_it.Common.Time.{Instant, Datetime}
use plan_it.Money.{Money, plus, negate, in_range, max_abs}
use plan_it.Ledger.Enums.{affects_balance, is_inflow}
use plan_it.Ledger.Balance.{
  LedgerMovement, is_later, add_movement, add_movements, calculate_account_balance, normalize_as_of,
}

-- What a movement adds to the balance at the cutoff.
abbrev pub contribution : Option Instant → LedgerMovement → ℤ
contribution as_of m =
    if affects_balance m.status && not (is_later as_of m.occurred_at)
    then (if is_inflow m.effect then m.amount.amount else neg m.amount.amount)
    else pos 0

abbrev pub net_movement : Option Instant → List LedgerMovement → ℤ
net_movement as_of [] = pos 0
net_movement as_of (m ∷ ms) = contribution as_of m +ℤ net_movement as_of ms

add_movement-eq :
    (c : Text) (as_of : Option Instant) (b : Money) (m : LedgerMovement) {r : Money}
    → add_movement c as_of b m ≡ ok r
    → (r.amount ≡ b.amount +ℤ contribution as_of m) × (r.currency ≡ b.currency)
unfolding add_movement plus negate in_range
add_movement-eq c as_of b m h = ground (arith, +ℤ-zero b.amount)

pub add_movements-eq :
    (c : Text) (as_of : Option Instant) (b : Money) (ms : List LedgerMovement) {r : Money}
    → add_movements c as_of b ms ≡ ok r
    → (r.amount ≡ b.amount +ℤ net_movement as_of ms) × (r.currency ≡ b.currency)
unfolding add_movements
add_movements-eq c as_of b [] h = ground (arith, +ℤ-zero b.amount)
add_movements-eq c as_of b (m ∷ ms) h =
    let (next, step, rest) =
      >>=-eq-ok (add_movement c as_of b m) (λ n. add_movements c as_of n ms) h in
    let (amount, code) = add_movement-eq c as_of b m step in
    let (total, kept) = add_movements-eq c as_of next ms rest in
    (total ∙ ap (λ t. t +ℤ net_movement as_of ms) amount ∙ +ℤ_assoc _ _ _, kept ∙ code)

-- The movements are in the currency of the account.
abbrev pub InCurrency : Text → LedgerMovement → Type 0
InCurrency c m = m.amount.currency ≡ c

add_movement-InCurrency :
    (c : Text) (as_of : Option Instant) (b : Money) (m : LedgerMovement) {r : Money}
    → add_movement c as_of b m ≡ ok r
    → InCurrency c m
unfolding add_movement
add_movement-InCurrency c as_of b m h = ground (arith, text_eq_iff m.amount.currency c)

pub add_movements-InCurrency :
    (c : Text) (as_of : Option Instant) (b : Money) (ms : List LedgerMovement) {r : Money}
    → add_movements c as_of b ms ≡ ok r
    → All (InCurrency c) ms
unfolding add_movements
add_movements-InCurrency c as_of b [] h = tt
add_movements-InCurrency c as_of b (m ∷ ms) h =
    let (next, step, rest) =
      >>=-eq-ok (add_movement c as_of b m) (λ n. add_movements c as_of n ms) h in
    (add_movement-InCurrency c as_of b m step, add_movements-InCurrency c as_of next ms rest)

-- A balance is the opening balance and the movements that count, each once with its sign; it keeps
-- the currency of the account, which every movement has, also one that does not count.
pub calculate_account_balance-sum :
    (o : Money) (ms : List LedgerMovement) (as_of : Option Datetime) {b : Money}
    → calculate_account_balance o ms as_of ≡ ok b
    → (cutoff : Option Instant) × (normalize_as_of as_of ≡ ok cutoff)
      × (b.amount ≡ o.amount +ℤ net_movement cutoff ms)
      × (b.currency ≡ o.currency)
      × All (InCurrency o.currency) ms
unfolding calculate_account_balance
calculate_account_balance-sum o ms as_of h =
    let (cutoff, e, rest) =
      >>=-eq-ok (normalize_as_of as_of) (λ k. add_movements o.currency k o ms) h in
    let (amount, code) = add_movements-eq o.currency cutoff o ms rest in
    (cutoff, e, amount, code, add_movements-InCurrency o.currency cutoff o ms rest)

-- The sum of all amounts, whatever their signs.
abbrev pub gross_movement : List LedgerMovement → ℕ
gross_movement [] = 0
gross_movement (m ∷ ms) = magnitude m.amount.amount + gross_movement ms

add_movement_total :
    (c : Text) (as_of : Option Instant) (b : Money) (m : LedgerMovement)
    → InCurrency c m
    → b.currency ≡ c
    → magnitude b.amount + magnitude m.amount.amount ≤ max_abs
    → add_movement c as_of b m
      ≡ ok (record { amount = b.amount +ℤ contribution as_of m; currency = c })
unfolding add_movement plus negate in_range
add_movement_total c as_of b m own kept small = ground (
  arith,
  text_eq_iff m.amount.currency c,
  text_eq_iff b.currency m.amount.currency,
  neg_parts m.amount.amount,
  magnitude-+ℤ b.amount m.amount.amount,
  magnitude-+ℤ b.amount (neg m.amount.amount),
  +ℤ-zero b.amount,
)

contribution-le :
    (as_of : Option Instant) (m : LedgerMovement)
    → magnitude (contribution as_of m) ≤ magnitude m.amount.amount
contribution-le as_of m = ground (arith, neg_parts m.amount.amount)

add_movements_total :
    (c : Text) (as_of : Option Instant) (b : Money) (ms : List LedgerMovement)
    → All (InCurrency c) ms
    → b.currency ≡ c
    → magnitude b.amount + gross_movement ms ≤ max_abs
    → add_movements c as_of b ms
      ≡ ok (record { amount = b.amount +ℤ net_movement as_of ms; currency = c })
unfolding add_movements
add_movements_total c as_of b [] own kept small = ground (arith, +ℤ-zero b.amount)
add_movements_total c as_of b (m ∷ ms) (own, owns) kept small =
    let next = b.amount +ℤ contribution as_of m in
    rw
      (
        add_movement_total c as_of b m own kept (omega arith),
        add_movements_total c as_of (record { amount = next; currency = c }) ms owns refl
            (omega (arith, magnitude-+ℤ b.amount (contribution as_of m), contribution-le as_of m)),
        +ℤ_assoc b.amount (contribution as_of m) (net_movement as_of ms),
      )
      refl

-- The computation succeeds if every movement is in the currency of the account and the opening
-- balance with all amounts together stays in the range of `Money`, whatever the order.
pub calculate_account_balance_total :
    (o : Money) (ms : List LedgerMovement) (as_of : Option Datetime) (cutoff : Option Instant)
    → normalize_as_of as_of ≡ ok cutoff
    → All (InCurrency o.currency) ms
    → magnitude o.amount + gross_movement ms ≤ max_abs
    → calculate_account_balance o ms as_of
      ≡ ok (record { amount = o.amount +ℤ net_movement cutoff ms; currency = o.currency })
unfolding calculate_account_balance
calculate_account_balance_total o ms as_of cutoff e own small =
    rw e (add_movements_total o.currency cutoff o ms own refl small)
