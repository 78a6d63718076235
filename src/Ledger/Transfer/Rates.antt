-- ===== src/Ledger/Transfer/Rates.antt =====
-- Rates and converted amounts.
use native.Mathlib.Nat.{mul-le-mul, one-le-pow}
use plan_it.Common.{
  ◌≡◌, arith, refl, some, none, ok, false, inl, inr, ℕ, Option, ◌<◌, ◌^◌, ◌*◌, ◌-◌, sym,
  not_ltb→leb, ◌∙◌, ◌⊎◌, ok-injective, ◌≤◌, get_or, ◌≢◌, ap, Bool-cases, subst,
}
use plan_it.Common.Int.{
  with_sign, ℤ, ltb_ℤ, pos, leb_ℤ, magnitude, ◌<ℤ◌, negsuc, pos_part, ◌-ℤ◌, ◌+ℤ◌, ◌*ℤ◌,
  magnitude-*ℤ,
}
use plan_it.Common.Text.{Text, text_eq_iff, text_eq}
use plan_it.Decimal.{rescale, Decimal, quantize, dec, ltb_dec, Number, finite, special, mul}
use plan_it.Ledger.Transfer.{
  normalize_finite_rate, fx_scale, max_fx_rate, normalize_fx_rate, resolve_converted,
  resolve_same_currency, fx_prec, resolve_destination,
}
use plan_it.Money.Exact.{rescale_self, fix-small, rescale_coarser}
use plan_it.Money.{Money, to_decimal, scale}
use plan_it.Ledger.Reallocation.{AccountPosition}
use plan_it.Money.Bounds.{IsMoney}
use plan_it.Decimal.Rounding.{IsHalfEven, with_sign-IsHalfEven}

-- A rate as `normalize_fx_rate` leaves it: twelve decimals, positive, and in range.
pub record IsRate (r : Decimal) : Type 0 where
  pub twelve : r.exponent ≡ fx_scale
  pub positive : pos 0 <ℤ r.coefficient
  pub within : magnitude r.coefficient < 10 ^ 30

normalize_finite_rate-value :
    (value : Decimal) {r : Option Decimal}
    → normalize_finite_rate value ≡ ok r
    → (r ≡ some (dec (rescale value fx_scale) fx_scale))
      × (ltb_ℤ value.exponent fx_scale ≡ false)
      × (leb_ℤ value.coefficient (pos 0) ≡ false)
      × (ltb_dec max_fx_rate value ≡ false)
unfolding normalize_finite_rate quantize
normalize_finite_rate-value value h = ground arith

-- Where no digit is dropped, rescaling multiplies by a power of ten.
rescale-finer :
    (d : Decimal) (e : ℤ)
    → ltb_ℤ d.exponent e ≡ false
    → rescale d e
      ≡ with_sign d.coefficient (magnitude d.coefficient * 10 ^ pos_part (d.exponent -ℤ e))
unfolding rescale
rescale-finer d e h = rw (not_ltb→leb _ _ h) refl

-- The value times a power of ten has the sign of the value.
with_sign-positive : (a : ℤ) (n : ℕ) → leb_ℤ a (pos 0) ≡ false → 0 < n → pos 0 <ℤ with_sign a n
unfolding with_sign
with_sign-positive (pos m) n h p = ground arith
with_sign-positive (negsuc m) n h p = ground arith

bounded : (a : ℤ) → pos 0 <ℤ a → ltb_ℤ (pos (10 ^ 30 - 1)) a ≡ false → magnitude a < 10 ^ 30
bounded (pos n) p h = ground arith
bounded (negsuc n) p h = ground arith

ltb_dec-finer :
    (c e : ℤ) (b : Decimal)
    → ltb_ℤ b.exponent e ≡ false
    → ltb_dec (dec c e) b ≡ ltb_ℤ c (rescale b e)
unfolding ltb_dec
ltb_dec-finer c e b h = rw (h, rescale_self c e) refl

rescale-IsRate :
    (value : Decimal)
    → ltb_ℤ value.exponent fx_scale ≡ false
    → leb_ℤ value.coefficient (pos 0) ≡ false
    → ltb_dec max_fx_rate value ≡ false
    → IsRate (dec (rescale value fx_scale) fx_scale)
rescale-IsRate value fine over under =
    let e = rescale-finer value fx_scale fine in
    let power = one-le-pow (pos_part (value.exponent -ℤ fx_scale)) 10 (omega arith) in
    let size : 0 < magnitude value.coefficient = ground arith in
    let grown = mul-le-mul size power in
    let above : pos 0 <ℤ rescale value fx_scale = rw e (
      with_sign-positive value.coefficient
        (magnitude value.coefficient * 10 ^ pos_part (value.exponent -ℤ fx_scale)) over
        (omega (arith, grown))) in
    let capped = sym (ltb_dec-finer (pos (10 ^ 30 - 1)) fx_scale value fine) ∙ under in
    record {
      twelve = refl;
      positive = above;
      within = bounded (rescale value fx_scale) above capped;
    }

-- A rate that is accepted has twelve decimals, is positive and in range, and has the value that was
-- given: twelve decimals or fewer are only brought to the scale. No rate stays no rate.
pub normalize_fx_rate_exact :
    (value : Option Number) {r : Option Decimal}
    → normalize_fx_rate value ≡ ok r
    → ((value ≡ none) × (r ≡ none))
      ⊎ ((d : Decimal) × (n : Decimal) × (value ≡ some (finite d))
          × (r ≡ some n)
          × IsRate n
          × (n.coefficient
              ≡ with_sign d.coefficient
                  (magnitude d.coefficient * 10 ^ pos_part (d.exponent -ℤ fx_scale))))
unfolding normalize_fx_rate
normalize_fx_rate_exact none h = inl (refl, sym (ok-injective h))
normalize_fx_rate_exact (some special) h = cc
normalize_fx_rate_exact (some (finite d)) h =
    let (e, fine, over, under) = normalize_finite_rate-value d h in
    inr (
      d,
      dec (rescale d fx_scale) fx_scale,
      refl,
      e,
      rescale-IsRate d fine over under,
      rescale-finer d fx_scale fine,
    )

-- A product of an amount and a rate has fewer digits than the context of 64.
small : (a : ℤ) → magnitude a < 10 ^ 30 → magnitude a ≤ 10 ^ 30
small a h = omega arith

product-fits :
    (a : Money) (r : Decimal)
    → IsMoney a
    → IsRate r
    → magnitude (a.amount *ℤ r.coefficient) < 10 ^ 64
product-fits a r v w =
    rw (magnitude-*ℤ a.amount r.coefficient)
      (omega (arith, mul-le-mul v.within (small r.coefficient w.within)))

product-exact :
    (a : Money) (r : Decimal)
    → IsMoney a
    → IsRate r
    → mul fx_prec (to_decimal a) r ≡ dec (a.amount *ℤ r.coefficient) (scale -ℤ pos 12)
unfolding mul ◌+ℤ◌ ◌-ℤ◌
product-exact a r v w =
    rw w.twelve
      (fix-small fx_prec (dec (a.amount *ℤ r.coefficient) (negsuc 15)) (product-fits a r v w))

resolve_same_currency_lem :
    (c : Text) (a : Money) (given : Option Money) (rate : Option Decimal) {r : Money}
    → resolve_same_currency c a given rate ≡ ok r
    → (r.currency ≡ c) × (pos 0 <ℤ r.amount) × (rate ≡ none) × (r.amount ≡ a.amount)
unfolding resolve_same_currency
resolve_same_currency_lem c a given rate h = ground (arith, text_eq_iff (get_or given a).currency c)

resolve_converted_lem :
    (c : Text) (a : Money) (given : Option Money) (rate : Option Decimal) {r : Money}
    → resolve_converted c a given rate ≡ ok r
    → (r.currency ≡ c)
      × (pos 0 <ℤ r.amount)
      × ((n : Decimal) × (rate ≡ some n)
          × (quantize fx_prec (mul fx_prec (to_decimal a) n) scale ≡ ok r.amount))
unfolding resolve_converted
resolve_converted_lem c a none rate h = cc
resolve_converted_lem c a (some d) none h = cc
resolve_converted_lem c a (some d) (some n) {r} h =
    (ground (arith, text_eq_iff d.currency c), ground arith, (n, refl, ground arith))

quantize-value :
    (prec : ℕ) (d : Decimal) (e : ℤ) {c : ℤ} → quantize prec d e ≡ ok c → c ≡ rescale d e
unfolding quantize
quantize-value prec d e h = ground arith

converted-IsHalfEven :
    (a : Money) (n : Decimal) (c : ℤ)
    → IsMoney a
    → IsRate n
    → quantize fx_prec (mul fx_prec (to_decimal a) n) scale ≡ ok c
    → IsHalfEven (a.amount *ℤ n.coefficient) (10 ^ 12) c
converted-IsHalfEven a n c v w h =
    let x = a.amount *ℤ n.coefficient in
    let e =
      quantize-value fx_prec (mul fx_prec (to_decimal a) n) scale h
      ∙ ap (λ d. rescale d scale) (product-exact a n v w)
      ∙ rescale_coarser x scale 12 in
    subst (IsHalfEven x (10 ^ 12)) (sym e) (with_sign-IsHalfEven x (10 ^ 12) (omega arith))

differing : (s t : Text) → text_eq s t ≡ false → s ≢ t
differing s t h e = ground (arith, text_eq_iff s t)

-- A destination amount that is accepted is in the currency of the destination and positive. Between
-- accounts of one currency it equals the source amount, and there is no rate; between currencies
-- there is one, and the destination amount is the source amount times the rate, rounded half to
-- even to ten-thousandths.
pub resolve_destination_amount :
    (source destination : AccountPosition) (a : Money) (given : Option Money)
    (rate : Option Decimal) {r : Money}
    → IsMoney a
    → ((n : Decimal) → rate ≡ some n → IsRate n)
    → resolve_destination source destination a given rate ≡ ok r
    → (r.currency ≡ destination.balance.currency)
      × (pos 0 <ℤ r.amount)
      × (((source.balance.currency ≡ destination.balance.currency)
            × (rate ≡ none)
            × (r.amount ≡ a.amount))
          ⊎ ((source.balance.currency ≢ destination.balance.currency)
              × ((n : Decimal) × (rate ≡ some n)
                  × IsHalfEven (a.amount *ℤ n.coefficient) (10 ^ 12) r.amount)))
unfolding resolve_destination
resolve_destination_amount source destination a given rate {r} v w h =
    let from = source.balance.currency in
    let to = destination.balance.currency in
    elim (Bool-cases (text_eq from to)) [
      | inl same ↦
          let (code, positive, no_rate, equal) =
            resolve_same_currency_lem to a given rate (rw same at h) in
          (code, positive, inl ((text_eq_iff from to).0 same, no_rate, equal))
      | inr differ ↦
          let (code, positive, (n, e, product)) =
            resolve_converted_lem to a given rate (rw differ at h) in
          let rounded = converted-IsHalfEven a n r.amount v (w n e) product in
          (code, positive, inr (differing from to differ, (n, e, rounded)))
    ]
