-- ===== src/Money/Exact.antt =====
-- The operators of `Money` compute in the default context and round with `quantize`; on values in
-- range neither changes anything.
use native.Mathlib.Nat.{one-le-pow, mul-one, le_refl}
use plan_it.Common.{
  ℕ, zero, suc, ◌+◌, ◌^◌, ◌<◌, ◌≡◌, refl, ap, ◌∙◌, true, some, arith, lt→ltb, le→leb, lt→leb, ok,
  ◌>>◌, subst, sym, ltb,
}
use plan_it.Common.Int.{
  -ℤ_self, -ℤ-zero, -ℤ_twice, magnitude-+ℤ, magnitude-ℤ, ℤ, pos, pos_part, neg_part, magnitude,
  ◌+ℤ◌, ◌-ℤ◌, ◌*ℤ◌, with_sign, int_laws, +ℤ-zero, with_sign-magnitude, ltb_ℤ,
}
use plan_it.Common.Text.{Text}
use plan_it.Decimal.Rounding.{half_even, half_even-one, IsHalfEven, with_sign-IsHalfEven}
use plan_it.Decimal.{
  Decimal, dec, default_prec, quantize, finite, rescale, add, sub, mul, fix, ltb_dec,
}
use plan_it.Money.{
  Money, scale, matches_currency, money, coerce_exact, calculated, in_range, plus, minus, multiply,
  require_same_currency, to_decimal, max_amount, max_abs,
}
use plan_it.Money.Bounds.{IsMoney, matches_currency-canonical}

pub rescale_self : (c e : ℤ) → rescale (dec c e) e ≡ c
unfolding rescale
rescale_self c e = rw (le→leb _ _ (le_refl _), -ℤ_self e, mul-one, with_sign-magnitude)

pub fix-small : (prec : ℕ) (d : Decimal) → magnitude d.coefficient < 10 ^ prec → fix prec d ≡ d
unfolding fix
fix-small prec d h = ground arith

ltb_ℤ-pos : (m n : ℕ) → ltb_ℤ (pos m) (pos n) ≡ ltb m n
ltb_ℤ-pos m n = ground arith

limit-whole : (n : ℕ) → ltb_dec max_amount (dec (pos n) scale) ≡ ltb max_abs n
unfolding ltb_dec
limit-whole n =
    ap (λ a. ltb_ℤ a (rescale (dec (pos n) scale) scale)) (rescale_self (pos max_abs) scale)
    ∙ (ap (λ b. ltb_ℤ (pos max_abs) b) (rescale_self (pos n) scale) ∙ ltb_ℤ-pos max_abs n)

-- `calculated` of whole ten-thousandths that the context can hold.
pub calculated-whole :
    (units : ℤ) (currency : Text)
    → matches_currency currency ≡ true
    → magnitude units < 10 ^ 28
    → calculated (finite (dec units scale)) currency ≡ in_range units currency
unfolding calculated quantize money coerce_exact in_range
calculated-whole units currency c h =
    rw (rescale_self, lt→ltb _ _ h, rescale_self, matches_currency-canonical currency c)
      (rw (c, limit-whole (magnitude units)) (ground arith))

-- The sum of two values at the scale of `Money` that the context can hold.
add-whole :
    (a b : ℤ)
    → magnitude (a +ℤ b) < 10 ^ 28
    → add default_prec (dec a scale) (dec b scale) ≡ dec (a +ℤ b) scale
unfolding add
add-whole a b h = rw (rescale_self, rescale_self) (fix-small default_prec (dec (a +ℤ b) scale) h)

sub-whole :
    (a b : ℤ)
    → magnitude (a -ℤ b) < 10 ^ 28
    → sub default_prec (dec a scale) (dec b scale) ≡ dec (a -ℤ b) scale
unfolding sub
sub-whole a b h = rw (rescale_self, rescale_self) (fix-small default_prec (dec (a -ℤ b) scale) h)

module _ (a b : Money) (v : IsMoney a) (w : IsMoney b) where
  -- `a + b` in the source, through decimals of the default context, is `plus`, for `a` and `b`
  -- that a constructor has accepted: no digit is lost and only the range can refuse the sum.
  pub plus-eq-calculated :
      (do
        require_same_currency a b
        calculated (finite (add default_prec (to_decimal a) (to_decimal b))) a.currency)
      ≡ plus a b
  unfolding plus
  plus-eq-calculated =
      let fits : magnitude (a.amount +ℤ b.amount) < 10 ^ 28 =
        omega (int_laws, magnitude-+ℤ a.amount b.amount) in
      rw
        (
          add-whole a.amount b.amount fits,
          calculated-whole (a.amount +ℤ b.amount) a.currency v.coded fits,
        )
        refl

  -- `a - b` in the source is `minus`, likewise.
  pub minus-eq-calculated :
      (do
        require_same_currency a b
        calculated (finite (sub default_prec (to_decimal a) (to_decimal b))) a.currency)
      ≡ minus a b
  unfolding minus
  minus-eq-calculated =
      let fits : magnitude (a.amount -ℤ b.amount) < 10 ^ 28 =
        omega (int_laws, magnitude-ℤ a.amount b.amount) in
      rw
        (
          sub-whole a.amount b.amount fits,
          calculated-whole (a.amount -ℤ b.amount) a.currency v.coded fits,
        )
        refl

mul-whole :
    (a f : ℤ)
    → magnitude (a *ℤ f) < 10 ^ 28
    → mul default_prec (dec a scale) (dec f (pos 0)) ≡ dec (a *ℤ f) scale
unfolding mul
mul-whole a f h = rw (+ℤ-zero scale) (fix-small default_prec (dec (a *ℤ f) scale) h)

-- Multiplication by a whole factor is exact as long as the product in ten-thousandths has at most
-- 28 digits; the range of `Money` alone can then refuse it.
pub multiply-whole :
    (a : Money) (f : ℤ)
    → IsMoney a
    → magnitude (a.amount *ℤ f) < 10 ^ 28
    → multiply a (some (finite (dec f (pos 0)))) ≡ in_range (a.amount *ℤ f) a.currency
unfolding multiply
multiply-whole a f v h =
    ap (λ d. calculated (finite d) a.currency) (mul-whole a.amount f h)
    ∙ calculated-whole (a.amount *ℤ f) a.currency v.coded h

pow-pos : (k : ℕ) → 0 < 10 ^ k
pow-pos k = one-le-pow k 10 (omega arith)

rescale_below :
    (c e : ℤ) (k : ℕ)
    → rescale (dec c (e -ℤ pos (suc k))) e ≡ with_sign c (half_even (magnitude c) (10 ^ suc k))
unfolding rescale
rescale_below c e k =
    rw
      (
        lt→leb (pos_part e + neg_part (e -ℤ pos (suc k))) (pos_part (e -ℤ pos (suc k)) + neg_part e)
            (omega int_laws),
        -ℤ_twice e (pos (suc k)),
      )
      refl

-- The coefficient at a coarser exponent is rounded half to even.
pub rescale_coarser :
    (c e : ℤ) (k : ℕ)
    → rescale (dec c (e -ℤ pos k)) e ≡ with_sign c (half_even (magnitude c) (10 ^ k))
rescale_coarser c e zero =
    rw (-ℤ-zero e, rescale_self c e, half_even-one (magnitude c), with_sign-magnitude c) refl
rescale_coarser c e (suc k) = rescale_below c e k

pub calculated-amount :
    (d : Decimal) (currency : Text) {m : Money}
    → calculated (finite d) currency ≡ ok m
    → m.amount ≡ rescale d scale
unfolding calculated quantize money coerce_exact
calculated-amount d currency h = ground (arith, rescale_self (rescale d scale) scale)

-- `calculated` of a decimal with the coefficient `c` and `k` digits beyond the fourth returns, where
-- it succeeds, the amount with the sign of `c` that is nearer to the decimal than half a
-- ten-thousandth, or the even one of the two that are exactly half a ten-thousandth away.
pub calculated-IsHalfEven :
    (c : ℤ) (k : ℕ) (currency : Text) {m : Money}
    → calculated (finite (dec c (scale -ℤ pos k))) currency ≡ ok m
    → IsHalfEven c (10 ^ k) m.amount
calculated-IsHalfEven c k currency h =
    let e = calculated-amount (dec c (scale -ℤ pos k)) currency h ∙ rescale_coarser c scale k in
    subst (IsHalfEven c (10 ^ k)) (sym e) (with_sign-IsHalfEven c (10 ^ k) (pow-pos k))
