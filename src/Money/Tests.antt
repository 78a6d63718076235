-- ===== src/Money/Tests.antt =====
-- `Money` at concrete inputs.
use plan_it.Common.{◌>>◌, ◌≡◌, arith, refl, some, ok, ◌^◌}
use plan_it.Common.Int.{◌*ℤ◌, pos, ◌-ℤ◌}
use plan_it.Common.Text.{is_upper, upper, text, strip}
use plan_it.Money.{
  money, Money, calculated, matches_currency, require_same_currency, coerce_exact, multiply, scale,
  in_range, to_decimal, minus, plus,
}
use plan_it.Money.Bounds.{IsMoney}
use plan_it.Decimal.{finite, quantize, sub, dec, add, default_prec, rescale}
use plan_it.Money.Exact.{
  calculated-IsHalfEven, multiply-whole, plus-eq-calculated, minus-eq-calculated,
}
use plan_it.Decimal.Rounding.{IsHalfEven}

abbrev price : Money
price = record { amount = pos 999; currency = text "USD" }

price-IsMoney : IsMoney price
unfolding matches_currency is_upper
price-IsMoney = record { within = omega arith; coded = refl }

money_run : money (finite (dec (pos 999) scale)) (text " usd ") ≡ ok price
unfolding money coerce_exact matches_currency is_upper upper strip rescale ◌-ℤ◌
money_run = refl

plus-eq-calculated_example :
    (do
      require_same_currency price price
      calculated (finite (add default_prec (to_decimal price) (to_decimal price))) price.currency)
    ≡ plus price price
plus-eq-calculated_example = plus-eq-calculated price price price-IsMoney price-IsMoney

minus-eq-calculated_example :
    (do
      require_same_currency price price
      calculated (finite (sub default_prec (to_decimal price) (to_decimal price))) price.currency)
    ≡ minus price price
minus-eq-calculated_example = minus-eq-calculated price price price-IsMoney price-IsMoney

multiply-whole_example :
    multiply price (some (finite (dec (pos 3) (pos 0)))) ≡ in_range (pos 999 *ℤ pos 3) (text "USD")
unfolding ◌*ℤ◌
multiply-whole_example = multiply-whole price (pos 3) price-IsMoney (omega arith)

-- A tie: 0.0998|5 goes to the even neighbour.
calculated_run :
    calculated (finite (dec (pos 9_985) (scale -ℤ pos 1))) (text "USD")
    ≡ ok (record { amount = pos 998; currency = text "USD" })
unfolding calculated money quantize coerce_exact matches_currency is_upper upper strip rescale ◌-ℤ◌
calculated_run = refl

calculated-IsHalfEven_example : IsHalfEven (pos 9_985) (10 ^ 1) (pos 998)
calculated-IsHalfEven_example = calculated-IsHalfEven (pos 9_985) 1 (text "USD") calculated_run
