-- ===== src/Decimal/Rounding.antt =====
-- `ROUND_HALF_EVEN` of a quotient of naturals, and what makes it the nearest whole number.
use native.Mathlib.Decide.{dec_lt}
use native.Mathlib.Nat.{mul-le-mul_right, div-add-mod, mod-lt, mul-div_cancel, mul-mod_left}
use plan_it.Common.{
  ap, ℕ, suc, ◌+◌, ◌*◌, ◌/◌, ◌%◌, ◌≤◌, ◌<◌, ◌≡◌, ◌⊎◌, inl, inr, arith, ltb, ◌==◌, if◌then◌else◌,
  refl,
}
use plan_it.Common.Int.{ℤ, with_sign, magnitude, magnitude-with_sign}

-- `n / d` rounded to the nearest whole number, a tie to the even neighbour.
unfoldable pub half_even : ℕ → ℕ → ℕ
half_even n d =
    let q = n / d in
    let r = n % d in
    if ltb (2 * r) d then q else if ltb d (2 * r) then q + 1 else if q % 2 == 0 then q else q + 1

-- Rounding down and rounding up, with the remainder that leads to each.
half_even-cases :
    (n d : ℕ)
    → ((half_even n d ≡ n / d) × (2 * (n % d) ≤ d) × (2 * (n % d) ≡ d → n / d % 2 ≡ 0))
      ⊎ ((half_even n d ≡ n / d + 1) × (d ≤ 2 * (n % d)) × (2 * (n % d) ≡ d → (n / d + 1) % 2 ≡ 0))
unfolding half_even
half_even-cases n d = ground arith

half_even_nearest :
    (n d : ℕ)
    → 0 < d
    → (2 * (half_even n d * d) ≤ 2 * n + d) × (2 * n ≤ 2 * (half_even n d * d) + d)
half_even_nearest n d h = elim (half_even-cases n d) [
  | inl (e, low, _) ↦ rw e (omega (arith, div-add-mod n d, mod-lt n h))
  | inr (e, high, _) ↦ rw e (omega (arith, div-add-mod n d, mod-lt n h))
]

half_even_tie : (n d : ℕ) → 0 < d → 2 * n ≡ 2 * (half_even n d * d) + d → half_even n d % 2 ≡ 0
half_even_tie n d h t = elim (half_even-cases n d) [
  | inl (e, low, even) ↦ rw e (even (omega (arith, rw e at t, div-add-mod n d, mod-lt n h)))
  | inr (e, high, even) ↦ absurd (omega (arith, rw e at t, div-add-mod n d, mod-lt n h))
]

half_even_tie-below :
    (n d : ℕ) → 0 < d → 2 * (half_even n d * d) ≡ 2 * n + d → half_even n d % 2 ≡ 0
half_even_tie-below n d h t = elim (half_even-cases n d) [
  | inl (e, low, even) ↦ absurd (omega (arith, rw e at t, div-add-mod n d, mod-lt n h))
  | inr (e, high, even) ↦ rw e (even (omega (arith, rw e at t, div-add-mod n d, mod-lt n h)))
]

-- The whole number of units `d` that `ROUND_HALF_EVEN` stands for: nearer to `n` than half a unit, or
-- exactly half a unit away and even.
unfoldable pub IsNearestEven : ℕ → ℕ → ℕ → Type 0
IsNearestEven n d q =
    ((2 * (q * d) < 2 * n + d) × (2 * n < 2 * (q * d) + d))
    ⊎ (((2 * (q * d) ≡ 2 * n + d) ⊎ (2 * n ≡ 2 * (q * d) + d)) × (q % 2 ≡ 0))

le-cases : (m n : ℕ) → m ≤ n → (m < n) ⊎ (m ≡ n)
le-cases m n h = ground arith

half_even-IsNearestEven : (n d : ℕ) → 0 < d → IsNearestEven n d (half_even n d)
unfolding IsNearestEven
half_even-IsNearestEven n d h =
    let q = half_even n d in
    let (low, high) = half_even_nearest n d h in
    elim (le-cases (2 * (q * d)) (2 * n + d) low) [
      | inr tie ↦ inr (inl tie, half_even_tie-below n d h tie)
      | inl below ↦ elim (le-cases (2 * n) (2 * (q * d) + d) high) [
        | inr tie ↦ inr (inr tie, half_even_tie n d h tie)
        | inl above ↦ inl (below, above)
      ]
    ]

-- A signed value in units of `d`: the sign stays and the magnitude is rounded half to even.
unfoldable pub IsHalfEven : ℤ → ℕ → ℤ → Type 0
IsHalfEven x d r = (r ≡ with_sign x (magnitude r)) × IsNearestEven (magnitude x) d (magnitude r)

pub with_sign-IsHalfEven :
    (x : ℤ) (d : ℕ) → 0 < d → IsHalfEven x d (with_sign x (half_even (magnitude x) d))
unfolding IsHalfEven
with_sign-IsHalfEven x d h =
    rw (magnitude-with_sign x (half_even (magnitude x) d))
      (refl, half_even-IsNearestEven (magnitude x) d h)

pub half_even-multiple : (q d : ℕ) → 0 < d → half_even (q * d) d ≡ q
unfolding half_even
half_even-multiple q d h = ground (arith, mul-div_cancel q h, mul-mod_left q d)

pub half_even-one : (n : ℕ) → half_even n 1 ≡ n
unfolding half_even
half_even-one n = ground arith

-- A larger numerator never rounds to a smaller number.
pub half_even_mono : (m n d : ℕ) → 0 < d → m ≤ n → half_even m d ≤ half_even n d
half_even_mono m n d h le = elim (dec_lt (half_even n d) (half_even m d)) [
  | no ordered ↦ omega arith
  | yes crossed ↦
      let gap : suc (half_even n d) * d ≤ half_even m d * d = mul-le-mul_right d crossed in
      let same : m ≡ n = omega (arith, gap, half_even_nearest m d h, half_even_nearest n d h) in
      absurd (omega (arith, ap (λ k. half_even k d) same))
]
