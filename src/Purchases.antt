-- ===== src/Purchases.antt =====
-- Purchase lines and images (backend/app/domain/purchases/policies.py).
use plan_it.Common.{
  if◌then◌else◌, ◌>>◌, ◌>>=◌, ◌∷◌, [], ok, false, Error, Result, not, ℕ, List, Bool, raise_if, ◌||◌,
  ◌*◌, take, leb, length, ◌&&◌, drop,
}
use plan_it.Common.Text.{text_eq, Text, text}
use plan_it.Common.Int.{ℤ, pos, leb_ℤ, ltb_ℤ}
use plan_it.Decimal.{sub, mul, quantize, Decimal, default_prec}
use plan_it.Money.{scale}

unfoldable pub calculate_line_total : Decimal → Decimal → Decimal → Result ℤ
unfolding sub mul quantize
calculate_line_total quantity unit_price discount = do
  raise_if (leb_ℤ quantity.coefficient (pos 0)) Error.invalid_item_quantity
  raise_if (ltb_ℤ unit_price.coefficient (pos 0) || ltb_ℤ discount.coefficient (pos 0))
      Error.invalid_line_total
  total ←
      quantize default_prec (sub default_prec (mul default_prec quantity unit_price) discount) scale
  raise_if (ltb_ℤ total (pos 0)) Error.invalid_line_total
  ok total

abbrev pub max_image_bytes : ℤ
max_image_bytes = pos (10 * 1024 * 1024)

abbrev pub jpeg : Text
jpeg = text "image/jpeg"

abbrev pub png : Text
png = text "image/png"

abbrev pub webp : Text
webp = text "image/webp"

-- `mime_type in ALLOWED_IMAGE_MIME_TYPES`.
unfoldable pub is_allowed_image : Text → Bool
unfolding text_eq
is_allowed_image t = text_eq t jpeg || (text_eq t png || text_eq t webp)

unfoldable pub validate_image : Text → ℤ → Result (Unit {0})
unfolding is_allowed_image
validate_image mime_type size_bytes = do
  raise_if (not (is_allowed_image mime_type)) Error.unsupported_media_type
  raise_if (leb_ℤ size_bytes (pos 0) || ltb_ℤ max_image_bytes size_bytes) Error.invalid_media_size

-- Bytes are numbers below 256.
abbrev starts_with : List ℕ → List ℕ → Bool
starts_with prefix bytes = text_eq (take (length prefix) bytes) prefix

abbrev pub jpeg_magic : List ℕ
jpeg_magic = 0xff ∷ 0xd8 ∷ 0xff ∷ []

abbrev pub png_magic : List ℕ
png_magic = 0x89 ∷ b'P' ∷ b'N' ∷ b'G' ∷ 13 ∷ 10 ∷ 0x1a ∷ 10 ∷ []

unfoldable pub matches_signature : Text → List ℕ → Bool
unfolding text_eq
matches_signature mime_type prefix =
    if text_eq mime_type jpeg
    then starts_with jpeg_magic prefix
    else if text_eq mime_type png
    then starts_with png_magic prefix
    else if text_eq mime_type webp
    then leb 12 (length prefix)
      && (starts_with (text "RIFF") prefix && text_eq (take 4 (drop 8 prefix)) (text "WEBP"))
    else false

unfoldable pub validate_image_signature : Text → List ℕ → Result (Unit {0})
unfolding matches_signature
validate_image_signature mime_type prefix =
    raise_if (not (matches_signature mime_type prefix)) Error.invalid_image_content
