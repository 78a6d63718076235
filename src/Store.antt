-- ===== src/Store.antt =====
-- The rows that the services read and write (backend/app/db/models/ledger.py) and the queries of the
-- repositories, over tables kept as lists. An identifier is a primary key, so a query for an
-- identifier and a user reads the one row with the identifier and compares its user.
pub mod Rows
pub mod Table
pub mod Balance
pub mod Movement
pub mod Totals
pub mod Overdraft
pub mod Debts
pub mod Planning
pub mod Ordered
pub mod Batch
pub mod Snapshot
use plan_it.Common.{
  if◌then◌else◌, ◌>>◌, ◌>>=◌, ◌∷◌, ◌≡◌, arith, refl, ◌+◌, some, none, [], ok, err, true, false,
  zero, suc, inl, inr, Error, Result, not, ℕ, List, Option, Bool,
}
use plan_it.Common.Int.{ℤ}
use plan_it.Common.Text.{Text}
use plan_it.Common.Time.{Instant}
use plan_it.Debts.{DebtDirection, DebtOriginType, DebtStatus}
use plan_it.Ledger.Enums.{TransactionKind, AccountEffect, TransactionStatus, AccountStatus}
use plan_it.Store.Rows.{
  CategoryModel, TagModel, TransactionTagModel, MerchantModel, MerchantLocationModel, ProductModel,
  TransactionItemModel, RecurringOccurrenceModel, RecurringRuleModel, SavingsGoalModel,
  GoalAllocationModel, TransferModel, BalanceReconciliationModel,
}

pub record AccountModel : Type 0 where
  pub id : ℕ
  pub user_id : ℕ
  pub name : Text
  pub currency : Text
  pub opening_balance : ℤ
  pub opened_at : Instant
  pub allow_negative : Bool
  pub status : AccountStatus
  pub version : ℕ

pub record TransactionModel : Type 0 where
  pub id : ℕ
  pub user_id : ℕ
  pub account_id : ℕ
  pub kind : TransactionKind
  pub effect : AccountEffect
  pub amount : ℤ
  pub currency : Text
  pub occurred_at : Instant
  pub status : TransactionStatus
  pub category_id : Option ℕ
  pub merchant_id : Option ℕ
  pub merchant_location_id : Option ℕ
  pub counterparty : Option Text
  pub note : Option Text
  pub parent_transaction_id : Option ℕ
  pub reversal_of_id : Option ℕ
  pub client_operation_id : ℕ
  pub version : ℕ

pub record PersonModel : Type 0 where
  pub id : ℕ
  pub user_id : ℕ
  pub name : Text
  pub archived_at : Option Instant

pub record DebtModel : Type 0 where
  pub id : ℕ
  pub user_id : ℕ
  pub person_id : ℕ
  pub direction : DebtDirection
  pub origin_type : DebtOriginType
  pub origin_transaction_id : Option ℕ
  pub original_amount : ℤ
  pub currency : Text
  pub due_date : Option ℕ
  pub status : DebtStatus
  pub note : Option Text
  pub cancelled_at : Option Instant
  pub cancellation_reason : Option Text
  pub client_operation_id : ℕ
  pub version : ℕ

pub record DebtPaymentModel : Type 0 where
  pub id : ℕ
  pub user_id : ℕ
  pub debt_id : ℕ
  pub transaction_id : ℕ
  pub amount : ℤ
  pub paid_at : Instant
  pub client_operation_id : ℕ

-- The entity and the action of an audit event.
pub data AuditAction : Type 0 where
  create_draft_event update_draft_event post_event reverse_event recorded_event : AuditAction
  create_rule_event update_rule_event due_event draft_created_event : AuditAction
  occurrence_draft_event skip_event : AuditAction
  create_goal_event update_goal_event allocate_event : AuditAction
  commit_transfer commit_reconciliation : AuditAction
  create_debt debt_payment cancel_debt : AuditAction

-- An audit event, without the JSON images of the row before and after.
pub record AuditEventModel : Type 0 where
  pub user_id : ℕ
  pub action : AuditAction
  pub entity_id : ℕ
  pub client_operation_id : Option ℕ

pub record Store : Type 0 where
  pub accounts : List AccountModel
  pub transactions : List TransactionModel
  pub people : List PersonModel
  pub debts : List DebtModel
  pub payments : List DebtPaymentModel
  pub categories : List CategoryModel
  pub tags : List TagModel
  pub transaction_tags : List TransactionTagModel
  pub merchants : List MerchantModel
  pub locations : List MerchantLocationModel
  pub products : List ProductModel
  pub items : List TransactionItemModel
  pub transfers : List TransferModel
  pub reconciliations : List BalanceReconciliationModel
  pub rules : List RecurringRuleModel
  pub occurrences : List RecurringOccurrenceModel
  pub goals : List SavingsGoalModel
  pub allocations : List GoalAllocationModel
  pub audit : List AuditEventModel

abbrev pub transaction_key : TransactionModel → ℕ
transaction_key t = t.id

abbrev pub debt_key : DebtModel → ℕ
debt_key d = d.id

abbrev pub payment_key : DebtPaymentModel → ℕ
payment_key p = p.id

abbrev pub person_key : PersonModel → ℕ
person_key p = p.id

-- `add_audit_event`.
unfoldable pub add_audit_event : ℕ → AuditAction → ℕ → ℕ → Store → Store
add_audit_event user action entity operation s = record s {
  audit =
      record {
        user_id = user;
        action = action;
        entity_id = entity;
        client_operation_id = some operation;
      }
      ∷ s.audit;
}

-- `add_audit_event` without an operation, as a batch calls it.
unfoldable pub add_batch_event : ℕ → AuditAction → ℕ → Store → Store
add_batch_event user action entity s = record s {
  audit =
      record { user_id = user; action = action; entity_id = entity; client_operation_id = none }
      ∷ s.audit;
}
