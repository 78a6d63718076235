-- ===== src/Money.antt =====
-- `Money` (backend/app/domain/money.py). An amount is a whole number of ten-thousandths, since every
-- `Money` is quantized to `SCALE` when it is built; identifiers of currencies are texts.

pub mod Bounds
pub mod Exact
mod Tests
use plan_it.Common.{
  ℕ, ◌-◌, ◌^◌, Bool, false, not, ◌&&◌, Option, none, some, [], ◌∷◌, ltb, if◌then◌else◌, Error,
  Result, ok, err, ◌>>=◌, ◌>>◌, raise_if, ◌≡◌, arith, refl, ◌+◌, true, zero, suc, inl, inr,
}
use plan_it.Common.Int.{ℤ, pos, negsuc, magnitude, ◌+ℤ◌, ◌-ℤ◌, neg, ltb_ℤ, leb_ℤ, eqb_ℤ}
use plan_it.Common.Text.{Text, is_upper, upper, strip, text_eq}
use plan_it.Decimal.{
  Decimal, Number, finite, special, dec, default_prec, quantize, mul, rescale, ltb_dec,
}

pub record Money : Type 0 where
  pub amount : ℤ
  pub currency : Text

-- `MAX_ABS`, in ten-thousandths: 999999999999999.9999.
abbrev pub max_abs : ℕ
max_abs = 10 ^ 19 - 1

-- The exponent of `SCALE`.
abbrev pub scale : ℤ
scale = negsuc 3

-- `MAX_ABS` and `abs(amount)` as decimals; `abs` would round a number of more than 28 digits, and
-- none with at most four decimals is near the limit then.
abbrev pub max_amount : Decimal
max_amount = dec (pos max_abs) scale

abbrev pub absolute : Decimal → Decimal
absolute d = dec (pos (magnitude d.coefficient)) d.exponent

-- The amount of a `Money` as a decimal.
abbrev pub to_decimal : Money → Decimal
to_decimal m = dec m.amount scale

-- `_CURRENCY_PATTERN.fullmatch`: three capital letters.
unfoldable pub matches_currency : Text → Bool
unfolding is_upper
matches_currency (a ∷ b ∷ c ∷ []) = is_upper a && (is_upper b && is_upper c)
matches_currency _ = false

-- `_coerce_exact`.
unfoldable pub coerce_exact : Number → Result Decimal
coerce_exact special = err Error.invalid_amount
coerce_exact (finite d) =
    if ltb_ℤ d.exponent scale then err Error.amount_precision_exceeded else ok d

-- `Money(amount, currency)`: `__post_init__`. An amount in range has at most 19 digits, so that
-- its `quantize` cannot fail.
unfoldable pub money : Number → Text → Result Money
unfolding coerce_exact matches_currency upper strip ltb_dec rescale
money value currency = do
  amount ← coerce_exact value
  let code = upper (strip currency)
  raise_if (not (matches_currency code)) Error.invalid_currency
  raise_if (ltb_dec max_amount (absolute amount)) Error.amount_out_of_range
  ok (record { amount = rescale amount scale; currency = code })

-- `Money.of`, where `none` is an argument that `Decimal` does not read.
unfoldable pub of : Option Number → Text → Result Money
unfolding money
of none currency = err Error.invalid_amount
of (some value) currency = money value currency

unfoldable pub zero_money : Text → Result Money
unfolding money
zero_money currency = money (finite (dec (pos 0) (pos 0))) currency

unfoldable pub calculated : Number → Text → Result Money
unfolding money quantize
calculated special currency = err Error.invalid_amount
calculated (finite amount) currency = do
  units ← quantize default_prec amount scale
  money (finite (dec units scale)) currency

-- The value that `calculated` returns for whole ten-thousandths in a currency that a `Money` has.
unfoldable pub in_range : ℤ → Text → Result Money
in_range units currency =
    if ltb max_abs (magnitude units)
    then err Error.amount_out_of_range
    else ok (record { amount = units; currency = currency })

unfoldable pub require_same_currency : Money → Money → Result (Unit {0})
require_same_currency a b = raise_if (not (text_eq a.currency b.currency)) Error.currency_mismatch

-- `a + b`, `a - b` and `-a`: `Money.Exact` shows that these are `calculated` of the decimals.
unfoldable pub plus : Money → Money → Result Money
unfolding require_same_currency in_range
plus a b = do require_same_currency a b; in_range (a.amount +ℤ b.amount) a.currency

unfoldable pub minus : Money → Money → Result Money
unfolding require_same_currency in_range
minus a b = do require_same_currency a b; in_range (a.amount -ℤ b.amount) a.currency

unfoldable pub negate : Money → Result Money
unfolding in_range
negate a = in_range (neg a.amount) a.currency

-- `a.multiply(factor)`, where `none` is a factor that `Decimal` does not read.
unfoldable pub multiply : Money → Option Number → Result Money
unfolding calculated mul
multiply a none = err Error.invalid_factor
multiply a (some special) = err Error.invalid_factor
multiply a (some (finite factor)) =
    calculated (finite (mul default_prec (to_decimal a) factor)) a.currency

unfoldable pub require_non_negative : Money → Error → Result Money
require_non_negative a code = if ltb_ℤ a.amount (pos 0) then err code else ok a

unfoldable pub require_positive : Money → Error → Result Money
require_positive a code = if leb_ℤ a.amount (pos 0) then err code else ok a

-- `a == b` of two dataclasses.
unfoldable pub money_eq : Money → Money → Bool
money_eq a b = eqb_ℤ a.amount b.amount && text_eq a.currency b.currency
