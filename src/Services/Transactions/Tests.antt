-- ===== src/Services/Transactions/Tests.antt =====
-- A draft of an expense, its change, its posting and its reversal, at concrete inputs.
use plan_it.Common.{
  if◌then◌else◌, ◌∷◌, ◌≡◌, refl, some, none, [], ok, false, not, ℕ, ◌==◌, ◌&&◌, arith,
}
use plan_it.Common.Text.{text, text_eq, strip}
use plan_it.Common.Int.{pos, ◌+ℤ◌, ◌-ℤ◌, ◌≤ℤ◌, ltb_ℤ, neg}
use plan_it.Common.Time.{Datetime, Instant, max_instant}
use plan_it.Services.Transactions.Drafts.{
  CreateTransactionCommand, update_draft, UpdateTransactionCommand, create_draft,
}
use plan_it.Store.{
  TransactionModel, Store, AccountModel, AuditAction, AuditEventModel, transaction_key,
}
use plan_it.Services.Transactions.Reversal.{
  ReverseTransactionCommand, reverse_transaction, reversal_row, reversed_row,
}
use plan_it.Services.Transactions.Posting.{post, posted_row}
use plan_it.Ledger.Enums.{TransactionKind, AccountEffect, TransactionStatus}
use plan_it.Store.Movement.{bump_account}
use plan_it.Store.Table.{find, put}
use plan_it.Store.Balance.{movement_total, get_account, get_balance, signed_amount}
use plan_it.Services.Transactions.History.{Calls, Kept, reversed_once, Call, Records, history-Kept}
use plan_it.Services.Transactions.Checks.{get_transaction}
use plan_it.Services.Transactions.Neutral.{update_draft-movement_total}
use plan_it.Ledger.Policies.{normalize_timestamp}
use plan_it.Money.{minus, negate, plus}
use plan_it.Services.Transactions.Covered.{post-covers}
use plan_it.Services.Transactions.Balances.{post-movement_total, reverse_transaction-movement_total}
use plan_it.Services.Fixtures.{opened, purse}
use plan_it.Store.Snapshot.{get_balance-refines, movements_of}
use plan_it.Ledger.Balance.{calculate_account_balance}
use plan_it.Services.Transactions.Undone.{reverse_transaction-post}

abbrev lunch : CreateTransactionCommand
lunch = record {
  id = 6;
  client_operation_id = 41;
  account_id = 1;
  kind = TransactionKind.expense;
  amount = record { amount = pos 300_000; currency = text "USD" };
  occurred_at = Datetime.aware (pos 80) (pos 10);
  category_id = some 4;
  merchant_id = none;
  merchant_location_id = none;
  counterparty = none;
  note = some (text " lunch ");
  tag_ids = 9 ∷ (9 ∷ []);
  items = [];
}

abbrev lunch_row : TransactionModel
lunch_row = record {
  id = 6;
  user_id = 7;
  account_id = 1;
  kind = TransactionKind.expense;
  effect = AccountEffect.outflow;
  amount = pos 300_000;
  currency = text "USD";
  occurred_at = pos 70;
  status = TransactionStatus.draft;
  category_id = some 4;
  merchant_id = none;
  merchant_location_id = none;
  counterparty = none;
  note = some (text "lunch");
  parent_transaction_id = none;
  reversal_of_id = none;
  client_operation_id = 41;
  version = 1;
}

abbrev event : AuditAction → ℕ → AuditEventModel
event action operation = record {
  user_id = 7;
  action = action;
  entity_id = 6;
  client_operation_id = some operation;
}

abbrev drafted : Store
drafted = record opened {
  transactions = lunch_row ∷ [];
  transaction_tags = record { transaction_id = 6; tag_id = 9; user_id = 7 } ∷ [];
  audit = event AuditAction.create_draft_event 41 ∷ [];
}

create_run : create_draft 7 lunch opened ≡ ok drafted
unfolding create_draft find ◌-ℤ◌ strip
create_run = refl

abbrev dearer : UpdateTransactionCommand
dearer = record {
  version = 1;
  kind = none;
  amount = some (record { amount = pos 400_000; currency = text "USD" });
  account_id = none;
  occurred_at = none;
  category_id = none;
  tag_ids = some [];
  items = none;
  merchant_id = none;
  merchant_location_id = none;
  counterparty = none;
  note = some none;
}

abbrev dearer_row : TransactionModel
dearer_row = record lunch_row { amount = pos 400_000; note = none; version = 2 }

abbrev changed : Store
changed = record drafted {
  transactions = dearer_row ∷ [];
  transaction_tags = [];
  audit = event AuditAction.update_draft_event 42 ∷ (event AuditAction.create_draft_event 41 ∷ []);
}

update_run : update_draft 7 6 dearer 42 drafted ≡ ok changed
unfolding update_draft find ◌-ℤ◌ put
update_run = refl

abbrev spent : Store
spent = record changed {
  accounts = bump_account purse ∷ [];
  transactions = posted_row dearer_row ∷ [];
  audit = event AuditAction.post_event 43 ∷ changed.audit;
}

post_run : post (pos 100) 7 6 (record { version = 2 }) 43 changed ≡ ok spent
unfolding post find ◌+ℤ◌ ◌-ℤ◌ get_balance movement_total minus
post_run = refl

abbrev undo : ReverseTransactionCommand
undo = record {
  id = 8;
  client_operation_id = 44;
  version = 3;
  occurred_at = Datetime.aware (pos 90) (pos 0);
  note = some (text "wrong");
}

abbrev undone : Store
undone = record spent {
  accounts = bump_account (bump_account purse) ∷ [];
  transactions =
      record (reversal_row 7 (posted_row dearer_row) undo (pos 90) (some (text "wrong"))) {
        status = TransactionStatus.posted;
      }
      ∷ (reversed_row (posted_row dearer_row) ∷ []);
  audit = event AuditAction.reverse_event 44 ∷ spent.audit;
}

reverse_run : reverse_transaction (pos 100) 7 6 undo spent ≡ ok undone
unfolding reverse_transaction find ◌+ℤ◌ ◌-ℤ◌ text_eq put
reverse_run = refl

update_draft-movement_total_example :
    movement_total 7 1 (pos 100) changed.transactions
    ≡ movement_total 7 1 (pos 100) drafted.transactions
update_draft-movement_total_example =
    update_draft-movement_total 7 6 dearer 42 drafted update_run 1 (pos 100)

post-movement_total_example :
    (model : TransactionModel) × (get_transaction 6 7 changed ≡ some model)
    × (model.status ≡ TransactionStatus.draft)
    × ((account : ℕ) (as_of : Instant)
        → movement_total 7 account as_of spent.transactions
          ≡ movement_total 7 account as_of changed.transactions
            +ℤ (if model.account_id == account && not (ltb_ℤ as_of model.occurred_at)
                then signed_amount model
                else pos 0))
post-movement_total_example =
    post-movement_total (pos 100) 7 6 (record { version = 2 }) 43 changed post_run

post-covers_example :
    (model : TransactionModel) × (account : AccountModel) × (get_transaction 6 7 changed
      ≡ some model)
    × (get_account model.account_id 7 changed ≡ some account)
    × (account.allow_negative ≡ false
        → model.effect ≡ AccountEffect.outflow
        → pos 0
          ≤ℤ account.opening_balance
            +ℤ movement_total 7 account.id
                (max_instant (pos 100) model.occurred_at)
                spent.transactions)
post-covers_example = post-covers (pos 100) 7 6 (record { version = 2 }) 43 changed post_run

reverse_transaction-movement_total_example :
    (original : TransactionModel) × (at : Instant) × (get_transaction 6 7 spent ≡ some original)
    × (original.status ≡ TransactionStatus.posted)
    × (normalize_timestamp undo.occurred_at ≡ ok at)
    × (original.occurred_at ≤ℤ at)
    × ((account : ℕ) (as_of : Instant)
        → movement_total 7 account as_of undone.transactions
          ≡ movement_total 7 account as_of spent.transactions
            +ℤ (if original.account_id == account && not (ltb_ℤ as_of at)
                then neg (signed_amount original)
                else pos 0))
reverse_transaction-movement_total_example =
    reverse_transaction-movement_total (pos 100) 7 6 undo spent reverse_run

undo_dated : normalize_timestamp undo.occurred_at ≡ ok (pos 90)
unfolding normalize_timestamp ◌-ℤ◌
undo_dated = refl

reverse_transaction-post_example :
    movement_total 7 1 (pos 95) undone.transactions
      +ℤ movement_total 7 1 (pos 95) spent.transactions
    ≡ movement_total 7 1 (pos 95) spent.transactions
      +ℤ movement_total 7 1 (pos 95) changed.transactions
reverse_transaction-post_example =
    reverse_transaction-post 7 (pos 100) 6 (record { version = 2 }) 43 changed (pos 100) undo
      (pos 90) post_run Calls.start reverse_run undo_dated 1 (pos 95) refl

-- The life of a transaction is a sequence of calls.
life : Calls 7 opened undone
life =
    Calls.next
      (Calls.next
        (Calls.next (Calls.next Calls.start (Call.creates lunch create_run))
          (Call.updates 6 dearer 42 update_run))
        (Call.posts (pos 100) 6 (record { version = 2 }) 43 post_run))
      (Call.reverses (pos 100) 6 undo reverse_run)

posted_held : find transaction_key 6 spent.transactions ≡ some (posted_row dearer_row)
unfolding find
posted_held = refl

history-Kept_example : Kept (Records (posted_row dearer_row)) 6 undone.transactions
history-Kept_example =
    history-Kept 7 (posted_row dearer_row)
      (Calls.next Calls.start (Call.reverses (pos 100) 6 undo reverse_run)) posted_held refl

reversed_once_example :
    ¬ (reverse_transaction (pos 200) 7 6 (record undo { id = 10; version = 4 }) undone ≡ ok undone)
reversed_once_example =
    reversed_once 7 (pos 100) 6 undo spent (pos 200) (record undo { id = 10; version = 4 })
      reverse_run Calls.start

calculate_run :
    calculate_account_balance
      (record { amount = pos 1_000_000; currency = text "USD" })
      (movements_of 7 1 spent.transactions)
      (some (Datetime.aware (pos 100) (pos 0)))
    ≡ ok (record { amount = pos 600_000; currency = text "USD" })
unfolding calculate_account_balance text_eq ◌-ℤ◌ ◌+ℤ◌ negate neg plus
calculate_run = refl

spent_account : get_account 1 7 spent ≡ some (bump_account purse)
unfolding get_account find
spent_account = refl

get_balance-refines_example :
    get_balance 1 7 (pos 100) spent
    ≡ ok (some (record { amount = pos 600_000; currency = text "USD" }))
get_balance-refines_example =
    get_balance-refines 1 7 (pos 100) spent spent_account (omega arith) calculate_run
