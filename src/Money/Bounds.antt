-- ===== src/Money/Bounds.antt =====
-- Amounts in range with a currency code, and the operations that keep them so.
use plan_it.Common.{ℕ, ◌≤◌, ◌≡◌, true, false, ◌&&◌, [], ◌∷◌, arith, &&_iff, ok}
use plan_it.Common.Int.{ℤ, magnitude, neg, neg_parts}
use plan_it.Common.Text.{Text, is_space, is_upper, upper, strip, upper_char}
use plan_it.Money.{Money, max_abs, matches_currency, in_range, plus, minus, negate}

pub record IsMoney (m : Money) : Type 0 where
  pub within : magnitude m.amount ≤ max_abs
  pub coded : matches_currency m.currency ≡ true

is_upper-plain : (c : ℕ) → is_upper c ≡ true → (is_space c ≡ false) × (upper_char c ≡ c)
unfolding is_upper is_space upper_char
is_upper-plain c h = ground arith

-- A currency code is what stripping and upper-casing make of it.
pub matches_currency-canonical : (t : Text) → matches_currency t ≡ true → upper (strip t) ≡ t
unfolding matches_currency is_upper upper strip is_space
matches_currency-canonical [] h = cc
matches_currency-canonical (a ∷ []) h = cc
matches_currency-canonical (a ∷ b ∷ []) h = cc
matches_currency-canonical (a ∷ b ∷ c ∷ []) h =
    let (outer, last) = (&&_iff (is_upper a) (is_upper b && is_upper c)).0 h in
    let (inner, tail) = (&&_iff (is_upper b) (is_upper c)).0 last in
    let (a_solid, a_kept) = is_upper-plain a outer in
    let (b_solid, b_kept) = is_upper-plain b inner in
    let (c_solid, c_kept) = is_upper-plain c tail in ground arith
matches_currency-canonical (a ∷ b ∷ c ∷ d ∷ t) h = cc

pub in_range-IsMoney :
    (units : ℤ) (currency : Text) {m : Money}
    → matches_currency currency ≡ true
    → in_range units currency ≡ ok m
    → IsMoney m
unfolding in_range
in_range-IsMoney units currency c h = ground arith

pub plus-IsMoney : (a b : Money) {m : Money} → IsMoney a → plus a b ≡ ok m → IsMoney m
unfolding plus
plus-IsMoney a b v h = ground arith

pub minus-IsMoney : (a b : Money) {m : Money} → IsMoney a → minus a b ≡ ok m → IsMoney m
unfolding minus
minus-IsMoney a b v h = ground arith

pub negate-IsMoney :
    (a : Money)
    → IsMoney a
    → negate a ≡ ok (record { amount = neg a.amount; currency = a.currency })
unfolding negate
negate-IsMoney a v = ground (arith, neg_parts a.amount)
