-- ===== src/Services/Transactions/Drafts.antt =====
-- `create_draft_in_transaction` and `update_draft_in_transaction`.
use plan_it.Common.{
  ◌>>◌, ◌>>=◌, ◌+◌, some, none, ok, false, Error, Result, ℕ, Option, List, dedup, or_raise,
}
use plan_it.Common.Text.{Text}
use plan_it.Common.Time.{Datetime, Instant}
use plan_it.Common.Int.{pos}
use plan_it.Services.Transactions.Checks.{
  get_transaction, require_transaction_account, require_category, insert_transaction, tag_ids_of,
  require_tags, replace_tags, require_occurs_after_opening, require_version, update_transaction,
}
use plan_it.Ledger.Policies.{
  require_core_kind, normalize_optional_text, normalize_timestamp, require_draft, effect_for,
  TextField,
}
use plan_it.Ledger.Enums.{TransactionKind, AccountEffect, TransactionStatus}
use plan_it.Services.Transactions.Purchases.{
  replace_items, TransactionItemCommand, items_for, require_purchase_details,
}
use plan_it.Store.{AccountModel, TransactionModel, Store, add_audit_event, AuditAction}
use plan_it.Money.{require_positive, Money, money, scale}
use plan_it.Decimal.{finite, dec}

pub record CreateTransactionCommand : Type 0 where
  pub id : ℕ
  pub client_operation_id : ℕ
  pub account_id : ℕ
  pub kind : TransactionKind
  pub amount : Money
  pub occurred_at : Datetime
  pub category_id : Option ℕ
  pub merchant_id : Option ℕ
  pub merchant_location_id : Option ℕ
  pub counterparty : Option Text
  pub note : Option Text
  pub tag_ids : List ℕ
  pub items : List TransactionItemCommand

-- `values`: a key that is absent is `none`.
pub record UpdateTransactionCommand : Type 0 where
  pub version : ℕ
  pub kind : Option TransactionKind
  pub amount : Option Money
  pub account_id : Option ℕ
  pub occurred_at : Option Datetime
  pub category_id : Option (Option ℕ)
  pub tag_ids : Option (List ℕ)
  pub items : Option (List TransactionItemCommand)
  pub merchant_id : Option (Option ℕ)
  pub merchant_location_id : Option (Option ℕ)
  pub counterparty : Option (Option Text)
  pub note : Option (Option Text)

abbrev pub draft_of :
    ℕ
    → CreateTransactionCommand
    → AccountModel
    → AccountEffect
    → Instant
    → Option Text
    → Option Text
    → TransactionModel
draft_of user command account effect occurred_at counterparty note = record {
  id = command.id;
  user_id = user;
  account_id = account.id;
  kind = command.kind;
  effect = effect;
  amount = command.amount.amount;
  currency = account.currency;
  occurred_at = occurred_at;
  status = TransactionStatus.draft;
  category_id = command.category_id;
  merchant_id = command.merchant_id;
  merchant_location_id = command.merchant_location_id;
  counterparty = counterparty;
  note = note;
  parent_transaction_id = none;
  reversal_of_id = none;
  client_operation_id = command.client_operation_id;
  version = 1;
}

-- The checks of a draft, on its account, category, tags and lines.
unfoldable pub check_draft :
    ℕ
    → TransactionKind
    → Money
    → ℕ
    → Datetime
    → Option ℕ
    → List ℕ
    → Option ℕ
    → Option ℕ
    → List TransactionItemCommand
    → Store
    → Result (AccountModel × Instant)
unfolding require_positive normalize_timestamp require_transaction_account require_category
    require_tags require_purchase_details
check_draft user kind money account_id time category_id tag_ids merchant_id location_id items s = do
  account ← require_transaction_account account_id user money false s
  occurred_at ← normalize_timestamp time
  require_occurs_after_opening occurred_at account
  require_category user category_id kind false s
  require_tags user tag_ids s
  require_purchase_details user kind money.amount merchant_id location_id items s
  ok (account, occurred_at)

-- The value of a key, or the present one.
abbrev pub given {ℓ} : {A : Type ℓ} → Option A → A → A
given none present = present
given (some value) present = value

abbrev pub given_money : Option Money → TransactionModel → Result Money
given_money (some value) model = ok value
given_money none model = money (finite (dec model.amount scale)) model.currency

unfoldable pub given_text :
    Option (Option Text) → Option Text → TextField → ℕ → Result (Option Text)
unfolding normalize_optional_text
given_text none present field maximum = ok present
given_text (some value) present field maximum = normalize_optional_text value field maximum

module _ (user : ℕ) where
  unfoldable pub create_draft : CreateTransactionCommand → Store → Result Store
  unfolding require_core_kind require_positive normalize_timestamp check_draft effect_for
      normalize_optional_text insert_transaction dedup replace_tags replace_items add_audit_event
  create_draft command s = do
    require_core_kind command.kind
    require_positive command.amount Error.non_positive_amount
    normalize_timestamp command.occurred_at
    let tags = dedup command.tag_ids
    (account, occurred_at) ←
        check_draft user command.kind command.amount command.account_id command.occurred_at
          command.category_id tags command.merchant_id command.merchant_location_id command.items s
    effect ← effect_for command.kind
    counterparty ← normalize_optional_text command.counterparty TextField.counterparty 160
    note ← normalize_optional_text command.note TextField.other_text 2000
    let model = draft_of user command account effect occurred_at counterparty note
    added ← insert_transaction model s
    detailed ← replace_items command.id user command.items (replace_tags command.id user tags added)
    ok (
        add_audit_event user AuditAction.create_draft_event command.id command.client_operation_id
          detailed)

  unfoldable pub given_items : Option (List TransactionItemCommand) → ℕ → Store → Result Store
  unfolding replace_items
  given_items none id s = ok s
  given_items (some items) id s = replace_items id user items s

  -- The part of `update_draft_in_transaction` that writes.
  unfoldable pub write_update :
      TransactionModel
      → UpdateTransactionCommand
      → Money
      → AccountModel
      → Instant
      → ℕ
      → Store
      → Result Store
  unfolding effect_for given_text given_items tag_ids_of dedup replace_tags add_audit_event
  write_update model command amount account occurred_at operation s = do
    effect ← effect_for (given command.kind model.kind)
    counterparty ← given_text command.counterparty model.counterparty TextField.counterparty 160
    note ← given_text command.note model.note TextField.other_text 2000
    let row = record model {
      account_id = account.id;
      kind = given command.kind model.kind;
      effect = effect;
      amount = amount.amount;
      currency = account.currency;
      occurred_at = occurred_at;
      category_id = given command.category_id model.category_id;
      merchant_id = given command.merchant_id model.merchant_id;
      merchant_location_id = given command.merchant_location_id model.merchant_location_id;
      counterparty = counterparty;
      note = note;
      version = model.version + 1;
    }
    let tags = dedup (given command.tag_ids (tag_ids_of model.id s.transaction_tags))
    detailed ←
        given_items command.items model.id
          (replace_tags model.id user tags (update_transaction row s))
    ok (add_audit_event user AuditAction.update_draft_event model.id operation detailed)

  -- The part that checks.
  unfoldable pub check_update :
      TransactionModel → UpdateTransactionCommand → Store → Result (Money × AccountModel × Instant)
  unfolding require_draft require_core_kind money require_positive check_draft items_for tag_ids_of
      dedup
  check_update model command s = do
    require_draft model.status
    require_version model.version command.version
    let kind = given command.kind model.kind
    require_core_kind kind
    amount ← given_money command.amount model
    require_positive amount Error.non_positive_amount
    (account, occurred_at) ←
        check_draft user kind amount (given command.account_id model.account_id)
          (given command.occurred_at (Datetime.aware model.occurred_at (pos 0)))
          (given command.category_id model.category_id)
          (dedup (given command.tag_ids (tag_ids_of model.id s.transaction_tags)))
          (given command.merchant_id model.merchant_id)
          (given command.merchant_location_id model.merchant_location_id)
          (given command.items (items_for model.id s)) s
    ok (amount, account, occurred_at)

  unfoldable pub update_draft : ℕ → UpdateTransactionCommand → ℕ → Store → Result Store
  unfolding get_transaction check_update write_update
  update_draft id command operation s = do
    model ← or_raise (get_transaction id user s) Error.transaction_not_found
    (amount, account, occurred_at) ← check_update model command s
    write_update model command amount account occurred_at operation s
