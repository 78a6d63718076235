-- ===== src/Store/Rows.antt =====
-- The rows that classify and detail transactions (backend/app/db/models/ledger.py,
-- backend/app/db/models/purchases.py and backend/app/db/models/planning.py).
use plan_it.Common.{true, false, ℕ, Bool, Option}
use plan_it.Common.Time.{Instant}
use plan_it.Common.Text.{Text}
use plan_it.Common.Int.{ℤ}
use plan_it.Catalog.{CategoryKind}
use plan_it.Decimal.{Decimal}
use plan_it.Ledger.Enums.{TransactionKind}
use plan_it.Planning.{GoalStatus, RecurringFrequency, RecurringMode, RecurringStatus}

pub record CategoryModel : Type 0 where
  pub id : ℕ
  pub user_id : ℕ
  pub kind : CategoryKind
  pub archived_at : Option Instant

pub record TagModel : Type 0 where
  pub id : ℕ
  pub user_id : ℕ
  pub archived_at : Option Instant

pub record TransactionTagModel : Type 0 where
  pub transaction_id : ℕ
  pub tag_id : ℕ
  pub user_id : ℕ

pub record MerchantModel : Type 0 where
  pub id : ℕ
  pub user_id : ℕ
  pub archived_at : Option Instant

pub record MerchantLocationModel : Type 0 where
  pub id : ℕ
  pub user_id : ℕ
  pub merchant_id : ℕ
  pub archived_at : Option Instant

pub record ProductModel : Type 0 where
  pub id : ℕ
  pub user_id : ℕ
  pub size_value : Option Decimal
  pub size_unit : Option Text
  pub archived_at : Option Instant

pub record TransactionItemModel : Type 0 where
  pub id : ℕ
  pub user_id : ℕ
  pub transaction_id : ℕ
  pub product_id : Option ℕ
  pub description_snapshot : Text
  pub quantity : Decimal
  pub unit_price : Decimal
  pub discount : Decimal
  pub line_total : ℤ
  pub position : ℕ
  pub package_size_value_snapshot : Option Decimal
  pub package_size_unit_snapshot : Option Text

-- `OccurrenceStatus` (backend/app/domain/planning/enums.py).
pub data OccurrenceStatus : Type 0 where
  due draft_created recorded skipped : OccurrenceStatus

pub record RecurringRuleModel : Type 0 where
  pub id : ℕ
  pub user_id : ℕ
  pub name : Text
  pub kind : TransactionKind
  pub account_id : ℕ
  pub category_id : Option ℕ
  pub merchant_id : Option ℕ
  pub amount : ℤ
  pub currency : Text
  pub frequency : RecurringFrequency
  pub timezone : Text
  pub next_due_at : Instant
  pub anchor_day : ℕ
  pub mode : RecurringMode
  pub note : Option Text
  pub status : RecurringStatus
  pub version : ℕ

pub record RecurringOccurrenceModel : Type 0 where
  pub id : ℕ
  pub user_id : ℕ
  pub rule_id : ℕ
  pub scheduled_for : Instant
  pub transaction_id : Option ℕ
  pub status : OccurrenceStatus

abbrev pub is_draft_created : OccurrenceStatus → Bool
is_draft_created OccurrenceStatus.draft_created = true
is_draft_created _ = false

pub record SavingsGoalModel : Type 0 where
  pub id : ℕ
  pub user_id : ℕ
  pub name : Text
  pub target_amount : ℤ
  pub currency : Text
  pub target_date : Option ℕ
  pub linked_account_id : Option ℕ
  pub manual_progress : ℤ
  pub status : GoalStatus
  pub version : ℕ

pub record GoalAllocationModel : Type 0 where
  pub id : ℕ
  pub user_id : ℕ
  pub goal_id : ℕ
  pub amount : ℤ
  pub currency : Text
  pub note : Option Text
  pub client_operation_id : ℕ

pub record TransferModel : Type 0 where
  pub id : ℕ
  pub user_id : ℕ
  pub source_transaction_id : ℕ
  pub destination_transaction_id : ℕ
  pub fee_transaction_id : Option ℕ
  pub source_amount : ℤ
  pub destination_amount : ℤ
  pub fx_rate : Option Decimal
  pub reallocation_session_id : Option ℕ
  pub source_fingerprint : Text
  pub client_operation_id : ℕ
  pub version : ℕ

pub record BalanceReconciliationModel : Type 0 where
  pub id : ℕ
  pub user_id : ℕ
  pub account_id : ℕ
  pub calculated_balance : ℤ
  pub actual_balance : ℤ
  pub delta : ℤ
  pub effective_at : Instant
  pub reason : Option Text
  pub adjustment_transaction_id : ℕ
  pub source_fingerprint : Text
  pub client_operation_id : ℕ
  pub version : ℕ
