-- ===== src/Catalog/Laws.antt =====
-- Kinds of categories along a hierarchy, and colours in their normal form.
use plan_it.Common.{
  ◌≡◌, arith, true, false, ℕ, ◌∷◌, refl, some, none, [], ok, inl, inr, Option, ap, sym, &&_iff,
  ok-injective, ◌∙◌, Bool-cases, subst,
}
use plan_it.Common.Text.{is_digit, is_space, upper_char, Text, upper, strip}
use plan_it.Catalog.{
  is_hex, parent_accepts, category_accepts, CategoryKind, matches_color, normalize_color,
}

-- Below a parent that accepts its kind, a category accepts only transactions that the parent would
-- accept as well.
parent_accepts-category_accepts :
    (parent child : CategoryKind) (kind : Text)
    → parent_accepts parent child ≡ true
    → category_accepts child kind ≡ true
    → category_accepts parent kind ≡ true
unfolding parent_accepts category_accepts
parent_accepts-category_accepts parent child kind p c = ground arith

is_hex-plain : (c : ℕ) → is_hex c ≡ true → (is_space c ≡ false) × (upper_char c ≡ c)
unfolding is_hex is_digit is_space upper_char
is_hex-plain c h = ground arith

hash-plain : (c : ℕ) → c ≡ 35 → (is_space c ≡ false) × (upper_char c ≡ c)
unfolding is_space upper_char
hash-plain c h = ground arith

-- A colour in the required format is what stripping and upper-casing make of it.
matches_color-canonical : (t : Text) → matches_color t ≡ true → upper (strip t) ≡ t
unfolding matches_color upper strip is_space
matches_color-canonical [] h = cc
matches_color-canonical (h₀ ∷ []) h = cc
matches_color-canonical (h₀ ∷ a ∷ []) h = cc
matches_color-canonical (h₀ ∷ a ∷ b ∷ []) h = cc
matches_color-canonical (h₀ ∷ a ∷ b ∷ c ∷ []) h = cc
matches_color-canonical (h₀ ∷ a ∷ b ∷ c ∷ d ∷ []) h = cc
matches_color-canonical (h₀ ∷ a ∷ b ∷ c ∷ d ∷ e ∷ []) h = cc
matches_color-canonical (h₀ ∷ a ∷ b ∷ c ∷ d ∷ e ∷ f ∷ []) h =
    let (first, h₁) = (&&_iff _ _).0 h in
    let (ha, h₂) = (&&_iff _ _).0 h₁ in
    let (hb, h₃) = (&&_iff _ _).0 h₂ in
    let (hc, h₄) = (&&_iff _ _).0 h₃ in
    let (hd, h₅) = (&&_iff _ _).0 h₄ in
    let (he, hf) = (&&_iff _ _).0 h₅ in
    let (_, ka) = is_hex-plain a ha in
    let (_, kb) = is_hex-plain b hb in
    let (_, kc) = is_hex-plain c hc in
    let (_, kd) = is_hex-plain d hd in
    let (_, ke) = is_hex-plain e he in
    let (solid, kf) = is_hex-plain f hf in let same : h₀ ≡ b'#' = ground arith in ground arith
matches_color-canonical (h₀ ∷ a ∷ b ∷ c ∷ d ∷ e ∷ f ∷ g ∷ t) h = cc

-- A normalised colour is in normal form: normalising it again returns it.
normalize_color_stable :
    (value : Option Text) {color : Option Text}
    → normalize_color value ≡ ok color
    → normalize_color color ≡ ok color
unfolding normalize_color
normalize_color_stable none {color} h = ap normalize_color (sym (ok-injective h)) ∙ h
normalize_color_stable (some value) {color} h =
    elim (Bool-cases (matches_color (upper (strip value)))) [
      | inl good ↦
          let e : color ≡ some (upper (strip value)) = sym (ok-injective (rw good at h)) in
          subst (λ k. normalize_color k ≡ ok k) (sym e)
            (rw (matches_color-canonical _ good, good) refl)
      | inr bad ↦ let j = rw bad at h in cc
    ]
