-- ===== src/Decimal.antt =====
-- What the program uses of Python's `decimal`: finite values with an exponent, the context
-- precision, and rounding half to even. A zero has no sign here, and the exponent limits of the
-- context (999999) are not reached by the program's values and are left out.
pub mod Rounding
use plan_it.Common.{
  ℕ, zero, suc, ◌+◌, ◌-◌, ◌*◌, ◌/◌, ◌%◌, ◌^◌, ◌≤◌, ◌<◌, ◌≡◌, refl, sym, ap, ◌∙◌, ◌≢◌, ◌↔◌, ◌⊎◌, inl,
  inr, Bool, true, false, not, ◌&&◌, ◌||◌, Option, none, some, List, [], ◌∷◌, ◌++◌, map, arith, ltb,
  leb, ◌==◌, if◌then◌else◌, is_none, is_some, get_or, ltb→lt, lt→ltb, le→leb, le→ltb, ==_iff,
  ==_refl, &&_iff, Bool-cases, Option-cases, length, take, drop, All, any, mem, lookup, Error,
  Result, ok, err, ◌>>=◌, ◌>>◌, raise_if, or_raise, >>=-eq-ok, raise_if-eq-ok,
}
use plan_it.Common.Int.{
  ℤ, pos, negsuc, pos_part, neg_part, magnitude, sub_ℕ, ◌+ℤ◌, ◌-ℤ◌, ◌*ℤ◌, neg, with_sign, ◌≤ℤ◌,
  ◌<ℤ◌, ltb_ℤ, leb_ℤ, eqb_ℤ, +ℤ_parts, -ℤ_parts, neg_parts, eq_of_parts, int_laws, +ℤ_assoc,
  +ℤ-zero, zero-+ℤ,
}
use plan_it.Decimal.Rounding.{half_even}

pub record Decimal : Type 0 where
  pub coefficient : ℤ
  pub exponent : ℤ

-- What a caller hands over: a finite decimal, or NaN or an infinity.
pub data Number : Type 0 where
  finite : Decimal → Number
  special : Number

abbrev pub dec : ℤ → ℤ → Decimal
dec c e = record { coefficient = c; exponent = e }

-- The precision of the default context.
abbrev pub default_prec : ℕ
default_prec = 28

digits_from : ℕ → ℕ → ℕ
digits_from zero n = 1
digits_from (suc f) n = let more = digits_from f (n / 10) in if ltb n 10 then 1 else suc more

-- The number of decimal digits of `n`; `n` itself is fuel enough.
unfoldable pub digits : ℕ → ℕ
unfolding digits_from
digits n = digits_from n n

-- The coefficient of a value at the exponent `e`, rounded half to even where digits are lost.
unfoldable pub rescale : Decimal → ℤ → ℤ
unfolding half_even with_sign
rescale d e =
    if leb_ℤ e d.exponent
    then with_sign d.coefficient (magnitude d.coefficient * 10 ^ pos_part (d.exponent -ℤ e))
    else with_sign d.coefficient
        (half_even (magnitude d.coefficient) (10 ^ pos_part (e -ℤ d.exponent)))

-- Rounding of an exact result to the precision of the context.
unfoldable pub fix : ℕ → Decimal → Decimal
unfolding half_even with_sign digits
fix prec d =
    if ltb (magnitude d.coefficient) (10 ^ prec)
    then d
    else let excess = digits (magnitude d.coefficient) - prec in
      dec (with_sign d.coefficient (half_even (magnitude d.coefficient) (10 ^ excess)))
        (d.exponent +ℤ pos excess)

abbrev min_ℤ : ℤ → ℤ → ℤ
min_ℤ a b = if ltb_ℤ b a then b else a

unfoldable pub add : ℕ → Decimal → Decimal → Decimal
unfolding fix rescale
add prec a b = let e = min_ℤ a.exponent b.exponent in fix prec (dec (rescale a e +ℤ rescale b e) e)

unfoldable pub sub : ℕ → Decimal → Decimal → Decimal
unfolding fix rescale
sub prec a b = let e = min_ℤ a.exponent b.exponent in fix prec (dec (rescale a e -ℤ rescale b e) e)

unfoldable pub mul : ℕ → Decimal → Decimal → Decimal
unfolding fix
mul prec a b = fix prec (dec (a.coefficient *ℤ b.coefficient) (a.exponent +ℤ b.exponent))

-- `a.quantize(10 ** e, rounding=ROUND_HALF_EVEN)`: the coefficient of the result, or
-- `InvalidOperation` if it has more digits than the context allows.
unfoldable pub quantize : ℕ → Decimal → ℤ → Result ℤ
unfolding rescale
quantize prec a e =
    let c = rescale a e in
    if ltb (magnitude c) (10 ^ prec) then ok c else err Error.invalid_operation

-- `a < b`, exactly.
unfoldable pub ltb_dec : Decimal → Decimal → Bool
unfolding rescale
ltb_dec a b = let e = min_ℤ a.exponent b.exponent in ltb_ℤ (rescale a e) (rescale b e)

unfoldable pub eqb_dec : Decimal → Decimal → Bool
unfolding rescale
eqb_dec a b = let e = min_ℤ a.exponent b.exponent in eqb_ℤ (rescale a e) (rescale b e)
