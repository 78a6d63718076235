-- ===== src/Services/Transactions/Posting.antt =====
-- `post_in_transaction`.
use plan_it.Common.{
  if◌then◌else◌, ◌>>◌, ◌>>=◌, ◌∷◌, ◌+◌, some, none, [], ok, true, false, Error, Result, ℕ, List,
  Option, Bool, ◌==◌, ◌&&◌, or_raise, dedup,
}
use plan_it.Common.Time.{Instant}
use plan_it.Store.Rows.{RecurringOccurrenceModel, OccurrenceStatus, is_draft_created}
use plan_it.Store.{TransactionModel, add_audit_event, Store, AuditAction, AccountModel}
use plan_it.Ledger.Policies.{require_draft, require_core_kind, require_not_future}
use plan_it.Money.{Money, money, scale}
use plan_it.Store.Table.{put}
use plan_it.Services.Transactions.Checks.{
  get_transaction, require_transaction_account, require_category, update_transaction, require_tags,
  tag_ids_of, require_version, require_occurs_after_opening,
}
use plan_it.Ledger.Enums.{TransactionStatus}
use plan_it.Decimal.{finite, dec}
use plan_it.Store.Movement.{with_account, bump_account}
use plan_it.Services.Transactions.Purchases.{require_purchase_details, items_for}
use plan_it.Store.Balance.{require_projected_balance}
use plan_it.Store.Planning.{occurrence_key}

pub record PostTransactionCommand : Type 0 where
  pub version : ℕ

-- The constructor on a row of the table.
abbrev pub row_money : TransactionModel → Result Money
row_money t = money (finite (dec t.amount scale)) t.currency

-- The query for the occurrence of a recurring rule that made the draft.
abbrev pub is_occurrence_of : ℕ → ℕ → RecurringOccurrenceModel → Bool
is_occurrence_of user id o =
    o.user_id == user
    && (elim o.transaction_id [ none ↦ false | some k ↦ k == id ] && is_draft_created o.status)

unfoldable pub find_occurrence :
    ℕ → ℕ → List RecurringOccurrenceModel → Option RecurringOccurrenceModel
find_occurrence user id [] = none
find_occurrence user id (o ∷ os) =
    if is_occurrence_of user id o then some o else find_occurrence user id os

-- The occurrence, if there is one, becomes `RECORDED`.
unfoldable pub record_occurrence : ℕ → ℕ → ℕ → Store → Store
unfolding find_occurrence add_audit_event put
record_occurrence user id operation s = elim (find_occurrence user id s.occurrences) [
  | none ↦ s
  | some o ↦ add_audit_event user AuditAction.recorded_event o.id operation (record s {
    occurrences =
        put occurrence_key (record o { status = OccurrenceStatus.recorded }) s.occurrences;
  })
]

-- The row once posted.
abbrev pub posted_row : TransactionModel → TransactionModel
posted_row t = record t { status = TransactionStatus.posted; version = t.version + 1 }

module _ (now : Instant) (user : ℕ) where
  -- The checks of the row and of what it names, up to the one of the balance.
  unfoldable pub check_post :
      TransactionModel → PostTransactionCommand → Store → Result (AccountModel × Money)
  unfolding require_draft require_core_kind require_not_future money require_transaction_account
      require_category require_tags require_purchase_details require_projected_balance tag_ids_of
      dedup items_for
  check_post model command s = do
    require_draft model.status
    require_version model.version command.version
    require_core_kind model.kind
    require_not_future model.occurred_at now
    amount ← row_money model
    account ← require_transaction_account model.account_id user amount true s
    require_occurs_after_opening model.occurred_at account
    require_category user model.category_id model.kind true s
    require_tags user (dedup (tag_ids_of model.id s.transaction_tags)) s
    require_purchase_details user model.kind model.amount model.merchant_id
        model.merchant_location_id (items_for model.id s) s
    require_projected_balance account user amount model.effect model.occurred_at now s
    ok (account, amount)

  unfoldable pub post : ℕ → PostTransactionCommand → ℕ → Store → Result Store
  unfolding get_transaction check_post record_occurrence add_audit_event
  post id command operation s = do
    model ← or_raise (get_transaction id user s) Error.transaction_not_found
    (account, amount) ← check_post model command s
    let written = with_account (bump_account account) (update_transaction (posted_row model) s)
    ok (
        add_audit_event user AuditAction.post_event model.id operation
          (record_occurrence user model.id operation written))
