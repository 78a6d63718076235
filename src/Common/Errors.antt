-- ===== src/Common/Errors.antt =====
-- The exceptions of the program as values. A `DomainError` is known by its code; messages and details
-- are text for the client and are left out. The last row holds exceptions that are no `DomainError`:
-- `decimal.InvalidOperation`, `ValueError`, `RuntimeError`, `IntegrityError`, and an `OSError` of a call.
use mathlib.Core.Path.{◌≡◌, refl}
use mathlib.Core.Bool.{Bool, true, false}
use mathlib.Core.Option.{Option, none, some}

pub data Error : Type 0 where
  invalid_currency amount_out_of_range invalid_amount amount_precision_exceeded : Error
  currency_mismatch invalid_factor negative_amount non_positive_amount : Error
  invalid_timestamp original_classification_required reversal_of_reversal_not_allowed : Error
  unsupported_transaction_type transaction_in_future invalid_transaction_text : Error
  transaction_not_draft specialized_reversal_required transaction_already_reversed : Error
  transaction_not_posted invalid_version reallocation_requires_multiple_accounts : Error
  duplicate_account balancing_account_required balancing_account_is_derived : Error
  unauthorized_entity stale_balance negative_balance_not_allowed : Error
  invalid_fx_rate fx_rate_precision_exceeded same_transfer_account fx_amount_mismatch : Error
  invalid_account_name account_read_only account_has_activity account_closed : Error
  debt_direction_mismatch debt_overpayment : Error
  invalid_item_quantity invalid_line_total unsupported_media_type invalid_media_size : Error
  invalid_image_content weak_password invalid_password invalid_display_name : Error
  invalid_catalog_name invalid_tag_color invalid_planning_name : Error
  invalid_recurrence_anchor invalid_timezone invalid_goal_target : Error
  analytics_range_required invalid_analytics_range analytics_range_too_large : Error
  idempotency_conflict financial_integrity_conflict : Error
  account_not_found category_required category_not_found category_kind_mismatch : Error
  too_many_tags tag_not_found purchase_details_expense_only merchant_not_found : Error
  merchant_required merchant_location_not_found too_many_items duplicate_item_id : Error
  invalid_item_description product_not_found transaction_not_found version_conflict : Error
  transaction_before_account_opened reversal_before_original : Error
  transaction_id_conflict transaction_operation_conflict : Error
  person_not_found invalid_debt_origin debt_not_found debt_not_open debt_already_settled : Error
  cancellation_reason_required debt_id_conflict debt_operation_conflict : Error
  invalid_recurring_kind recurring_rule_conflict recurring_rule_not_found : Error
  merchant_expense_only occurrence_not_found occurrence_not_recordable : Error
  occurrence_not_skippable goal_not_found goal_conflict goal_archived : Error
  linked_goal_allocation zero_allocation goal_progress_negative : Error
  goal_allocation_conflict duplicate_operation_id fee_transaction_id_required : Error
  unexpected_fee_transaction_id invalid_transfer_fee : Error
  transfer_id_conflict transfer_operation_conflict no_reconciliation_needed : Error
  reconciliation_id_conflict reconciliation_operation_conflict : Error
  invalid_operation value_error runtime_error integrity_error : Error

pub data Result {ℓ} (Value : Type ℓ) : Type ℓ where
  err : Error → Result Value
  ok : Value → Result Value

-- `if test: raise code`.
abbrev pub raise_if : Bool → Error → Result (Unit {0})
raise_if false code = ok tt
raise_if true code = err code

-- `if found is None: raise code`.
abbrev pub or_raise {ℓ} : {Value : Type ℓ} → Option Value → Error → Result Value
or_raise (some value) code = ok value
or_raise none code = err code

-- An exception ends the block; these compute as soon as the first step has.
infixl 5 ◌>>=◌ ◌>>◌
abbrev pub ◌>>=◌ {ℓ κ} :
    {Value : Type ℓ} {Next : Type κ} → Result Value → (Value → Result Next) → Result Next
err code >>= next = err code
ok value >>= next = next value

abbrev pub ◌>>◌ {ℓ κ} : {Value : Type ℓ} {Next : Type κ} → Result Value → Result Next → Result Next
first >> second = first >>= λ unused. second

-- A block that succeeded, taken apart: its first step, a passed guard, its value.
pub >>=-eq-ok {ℓ κ} :
    {Value : Type ℓ} {Next : Type κ} (first : Result Value) (rest : Value → Result Next)
    {end : Next}
    → (first >>= rest) ≡ ok end
    → (value : Value) × (first ≡ ok value) × (rest value ≡ ok end)
>>=-eq-ok (err code) rest e = cc
>>=-eq-ok (ok value) rest e = (value, refl, e)

pub raise_if-eq-ok {ℓ} :
    {Value : Type ℓ} (test : Bool) (code : Error) (rest : Result Value) {end : Value}
    → (raise_if test code >> rest) ≡ ok end
    → (test ≡ false) × (rest ≡ ok end)
raise_if-eq-ok false code rest e = (refl, e)
raise_if-eq-ok true code rest e = cc

pub ok-injective {ℓ} : {Value : Type ℓ} {a b : Value} → ok a ≡ ok b → a ≡ b
ok-injective e = cc

pub or_raise-eq-ok {ℓ} :
    {Value : Type ℓ} (found : Option Value) (code : Error) {value : Value}
    → or_raise found code ≡ ok value
    → found ≡ some value
or_raise-eq-ok none code h = cc
or_raise-eq-ok (some v) code h = cc
