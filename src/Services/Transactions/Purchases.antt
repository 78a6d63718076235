-- ===== src/Services/Transactions/Purchases.antt =====
-- The lines of a purchase: `_require_purchase_details` and `_replace_items`.
use plan_it.Common.{
  if◌then◌else◌, ◌>>◌, ◌>>=◌, ◌∷◌, ◌+◌, some, none, [], ok, true, false, Error, Result, not, ℕ,
  filter, Option, List, Bool, or_raise, ◌==◌, raise_if, is_some, mem, length, ◌||◌, ltb, ◌&&◌, any,
  map, ◌++◌,
}
use plan_it.Common.Text.{Text, strip}
use plan_it.Common.Int.{ℤ, pos}
use plan_it.Decimal.{eqb_dec, Decimal, add, default_prec, dec}
use plan_it.Store.Rows.{TransactionItemModel, ProductModel, MerchantModel, MerchantLocationModel}
use plan_it.Purchases.{calculate_line_total}
use plan_it.Store.{Store}
use plan_it.Ledger.Enums.{TransactionKind, is_expense}
use plan_it.Store.Table.{find}
use plan_it.Money.{scale}

pub record TransactionItemCommand : Type 0 where
  pub id : ℕ
  pub product_id : Option ℕ
  pub description : Text
  pub quantity : Decimal
  pub unit_price : Decimal
  pub discount : Decimal

abbrev merchant_key : MerchantModel → ℕ
merchant_key m = m.id

abbrev location_key : MerchantLocationModel → ℕ
location_key l = l.id

abbrev product_key : ProductModel → ℕ
product_key p = p.id

-- `PurchaseRepository.get_merchant`, `get_location` and `get_product`.
unfoldable pub get_merchant : ℕ → ℕ → Store → Option MerchantModel
get_merchant id user s = elim (find merchant_key id s.merchants) [
  | none ↦ none
  | some m ↦ if m.user_id == user then some m else none
]

unfoldable pub get_location : ℕ → ℕ → Store → Option MerchantLocationModel
get_location id user s = elim (find location_key id s.locations) [
  | none ↦ none
  | some l ↦ if l.user_id == user then some l else none
]

unfoldable pub get_product : ℕ → ℕ → Store → Option ProductModel
get_product id user s = elim (find product_key id s.products) [
  | none ↦ none
  | some p ↦ if p.user_id == user then some p else none
]

unfoldable pub require_merchant : ℕ → Option ℕ → Store → Result (Option MerchantModel)
unfolding get_merchant
require_merchant user none s = ok none
require_merchant user (some id) s = do
  merchant ← or_raise (get_merchant id user s) Error.merchant_not_found
  raise_if (is_some merchant.archived_at) Error.merchant_not_found
  ok (some merchant)

unfoldable pub require_location : ℕ → Option MerchantModel → Option ℕ → Store → Result (Unit {0})
unfolding get_location
require_location user merchant none s = ok tt
require_location user merchant (some id) s = do
  chosen ← or_raise merchant Error.merchant_required
  location ← or_raise (get_location id user s) Error.merchant_location_not_found
  raise_if (is_some location.archived_at || not (location.merchant_id == chosen.id))
      Error.merchant_location_not_found

unfoldable pub require_product : ℕ → Option ℕ → Store → Result (Option ProductModel)
unfolding get_product
require_product user none s = ok none
require_product user (some id) s = do
  product ← or_raise (get_product id user s) Error.product_not_found
  raise_if (is_some product.archived_at) Error.product_not_found
  ok (some product)

-- One round of the loop on the lines: the total after the line.
unfoldable pub check_item : ℕ → List ℕ → Decimal → TransactionItemCommand → Store → Result Decimal
unfolding require_product calculate_line_total add
check_item user seen total item s = do
  raise_if (mem item.id seen) Error.duplicate_item_id
  let description = strip item.description
  raise_if (length description == 0 || ltb 240 (length description)) Error.invalid_item_description
  _ ← require_product user item.product_id s
  line ← calculate_line_total item.quantity item.unit_price item.discount
  ok (add default_prec total (dec line scale))

unfoldable pub check_items :
    ℕ → List ℕ → Decimal → List TransactionItemCommand → Store → Result Decimal
check_items user seen total [] s = ok total
check_items user seen total (item ∷ items) s = do
  next ← check_item user seen total item s
  check_items user (item.id ∷ seen) next items s

abbrev pub has_items : List TransactionItemCommand → Bool
has_items [] = false
has_items (_ ∷ _) = true

-- `amount` is in ten-thousandths.
unfoldable pub require_purchase_details :
    ℕ
    → TransactionKind
    → ℤ
    → Option ℕ
    → Option ℕ
    → List TransactionItemCommand
    → Store
    → Result (Unit {0})
unfolding require_merchant require_location check_items eqb_dec
require_purchase_details user kind amount merchant_id location_id items s = do
  raise_if
      ((is_some merchant_id || (is_some location_id || has_items items)) && not (is_expense kind))
      Error.purchase_details_expense_only
  merchant ← require_merchant user merchant_id s
  require_location user merchant location_id s
  raise_if (ltb 200 (length items)) Error.too_many_items
  total ← check_items user [] (dec (pos 0) (pos 0)) items s
  raise_if (has_items items && not (eqb_dec total (dec amount scale))) Error.invalid_line_total

abbrev pub size_value_of : Option ProductModel → Option Decimal
size_value_of none = none
size_value_of (some p) = p.size_value

abbrev pub size_unit_of : Option ProductModel → Option Text
size_unit_of none = none
size_unit_of (some p) = p.size_unit

-- The rows of the lines, from a position on.
unfoldable pub item_rows :
    ℕ → ℕ → ℕ → List TransactionItemCommand → Store → Result (List TransactionItemModel)
item_rows id user position [] s = ok []
item_rows id user position (item ∷ items) s = do
  product ← require_product user item.product_id s
  line_total ← calculate_line_total item.quantity item.unit_price item.discount
  rest ← item_rows id user (position + 1) items s
  ok (
      record {
        id = item.id;
        user_id = user;
        transaction_id = id;
        product_id = item.product_id;
        description_snapshot = strip item.description;
        quantity = item.quantity;
        unit_price = item.unit_price;
        discount = item.discount;
        line_total = line_total;
        position = position;
        package_size_value_snapshot = size_value_of product;
        package_size_unit_snapshot = size_unit_of product;
      }
      ∷ rest)

abbrev item_ids : List TransactionItemModel → List ℕ
item_ids [] = []
item_ids (r ∷ rs) = r.id ∷ item_ids rs

-- `_replace_items` with the flush of its rows, whose identifiers are a primary key.
unfoldable pub replace_items : ℕ → ℕ → List TransactionItemCommand → Store → Result Store
unfolding item_rows filter
replace_items id user items s = do
  rows ← item_rows id user 0 items s
  let kept = filter (λ r. not (r.transaction_id == id && r.user_id == user)) s.items
  raise_if (any (λ r. mem r.id (item_ids kept)) rows) Error.integrity_error
  ok (record s { items = kept ++ rows })

abbrev pub item_command : TransactionItemModel → TransactionItemCommand
item_command r = record {
  id = r.id;
  product_id = r.product_id;
  description = r.description_snapshot;
  quantity = r.quantity;
  unit_price = r.unit_price;
  discount = r.discount;
}

-- `PurchaseRepository.items_for`: the rows of a transaction, which are kept by position.
unfoldable pub items_for : ℕ → Store → List TransactionItemCommand
unfolding filter
items_for id s = map item_command (filter (λ r. r.transaction_id == id) s.items)
