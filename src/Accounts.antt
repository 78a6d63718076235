-- ===== src/Accounts.antt =====
-- The rules on accounts (backend/app/domain/accounts).
pub mod Laws
mod Tests
use plan_it.Common.{
  if◌then◌else◌, ◌>>◌, ◌>>=◌, ◌∷◌, ◌≡◌, arith, refl, ◌+◌, some, none, [], ok, err, true, false,
  zero, suc, inl, inr, Error, Result, not, ℕ, Bool, List, ◌&&◌, raise_if, length, ◌==◌, ltb,
}
use plan_it.Common.Text.{join, split, strip, Text}
use plan_it.Common.Int.{ltb_ℤ, pos}
use plan_it.Money.{Money}
use plan_it.Ledger.Enums.{AccountStatus, is_active}

pub data AccountType : Type 0 where
  bank cash savings card prepaid investment other_account : AccountType

unfoldable pub normalize_account_name : Text → Result Text
unfolding join split strip
normalize_account_name value = do
  let normalized = join (split (strip value))
  raise_if (length normalized == 0) Error.invalid_account_name
  raise_if (ltb 120 (length normalized)) Error.invalid_account_name
  ok normalized

unfoldable pub validate_negative_policy : Money → Bool → Result (Unit {0})
validate_negative_policy opening_balance allow_negative =
    raise_if (not allow_negative && ltb_ℤ opening_balance.amount (pos 0))
      Error.negative_balance_not_allowed

-- The fields that an edit may change.
pub data AccountField : Type 0 where
  status other_field : AccountField

abbrev is_status : AccountField → Bool
is_status status = true
is_status other_field = false

abbrev all_status : List AccountField → Bool
all_status [] = true
all_status (f ∷ fs) = is_status f && all_status fs

-- `changed_fields == {"status"}`.
abbrev pub only_status : List AccountField → Bool
only_status [] = false
only_status (f ∷ fs) = is_status f && all_status fs

-- `allowed_target` for an account that is not active.
abbrev pub allowed_target : AccountStatus → AccountStatus → Bool
allowed_target AccountStatus.archived AccountStatus.active = true
allowed_target AccountStatus.archived AccountStatus.closed = true
allowed_target AccountStatus.archived AccountStatus.archived = false
allowed_target current requested = is_active requested

unfoldable pub validate_account_edit :
    AccountStatus → AccountStatus → List AccountField → Result (Unit {0})
validate_account_edit current_status requested_status changed_fields =
    if is_active current_status then ok tt else do
      raise_if (not (only_status changed_fields)) Error.account_read_only
      raise_if (not (allowed_target current_status requested_status)) Error.account_read_only

unfoldable pub require_financial_fields_mutable : Bool → Result (Unit {0})
require_financial_fields_mutable has_posted_activity =
    raise_if has_posted_activity Error.account_has_activity
