-- ===== src/Catalog.antt =====
-- Categories and tags (backend/app/domain/catalog).
pub mod Laws
mod Tests
use plan_it.Common.{
  if◌then◌else◌, ◌>>◌, ◌>>=◌, ◌∷◌, ◌≡◌, arith, refl, ◌+◌, some, none, [], ok, err, true, false,
  zero, suc, inl, inr, Error, Result, not, ℕ, Bool, ◌==◌, ◌||◌, leb, Option, ◌&&◌, raise_if, length,
  ltb,
}
use plan_it.Common.Text.{Text, join, text_eq, upper, is_digit, casefold, text, split, strip}

pub data CategoryKind : Type 0 where
  expense income both : CategoryKind

-- The value of a kind.
unfoldable pub kind_value : CategoryKind → Text
kind_value CategoryKind.expense = text "EXPENSE"
kind_value CategoryKind.income = text "INCOME"
kind_value CategoryKind.both = text "BOTH"

abbrev pub is_both : CategoryKind → Bool
is_both CategoryKind.both = true
is_both _ = false

abbrev same_kind : CategoryKind → CategoryKind → Bool
same_kind CategoryKind.expense CategoryKind.expense = true
same_kind CategoryKind.income CategoryKind.income = true
same_kind CategoryKind.both CategoryKind.both = true
same_kind _ _ = false

-- `transaction_kind` is the text of any transaction kind.
unfoldable pub category_accepts : CategoryKind → Text → Bool
unfolding kind_value text_eq
category_accepts category_kind transaction_kind =
    is_both category_kind || text_eq (kind_value category_kind) transaction_kind

unfoldable pub parent_accepts : CategoryKind → CategoryKind → Bool
parent_accepts parent_kind child_kind = is_both parent_kind || same_kind parent_kind child_kind

unfoldable pub normalize_catalog_name : Text → Result Text
unfolding join split strip
normalize_catalog_name value = do
  let normalized = join (split (strip value))
  raise_if (length normalized == 0) Error.invalid_catalog_name
  raise_if (ltb 80 (length normalized)) Error.invalid_catalog_name
  ok normalized

unfoldable pub searchable_name : Text → Result Text
unfolding normalize_catalog_name casefold
searchable_name value = do name ← normalize_catalog_name value; ok (casefold name)

unfoldable pub is_hex : ℕ → Bool
unfolding is_digit
is_hex c = is_digit c || (leb b'A' c && leb c b'F')

-- `_COLOR_PATTERN.fullmatch`.
unfoldable pub matches_color : Text → Bool
unfolding is_hex
matches_color (hash ∷ a ∷ b ∷ c ∷ d ∷ e ∷ f ∷ []) =
    hash == b'#' && (is_hex a && (is_hex b && (is_hex c && (is_hex d && (is_hex e && is_hex f)))))
matches_color _ = false

unfoldable pub normalize_color : Option Text → Result (Option Text)
unfolding upper strip matches_color
normalize_color none = ok none
normalize_color (some value) =
    let normalized = upper (strip value) in
    if matches_color normalized then ok (some normalized) else err Error.invalid_tag_color
