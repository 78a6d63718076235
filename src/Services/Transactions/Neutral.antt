-- ===== src/Services/Transactions/Neutral.antt =====
-- Drafts have no part in balances.
use plan_it.Common.{◌≡◌, some, ok, ℕ, ap, ◌∙◌, subst, sym}
use plan_it.Common.Time.{Instant}
use plan_it.Common.Int.{◌+ℤ◌, zero-+ℤ}
use plan_it.Services.Transactions.Drafts.{
  UpdateTransactionCommand, CreateTransactionCommand, create_draft, update_draft,
}
use plan_it.Store.Balance.{movement_total}
use plan_it.Store.{Store, transaction_key}
use plan_it.Services.Transactions.Drafted.{create_draft-IsCreated, update_draft-IsUpdated}
use plan_it.Services.Transactions.Effect.{get_transaction-find}
use plan_it.Services.Transactions.Balances.{draft-uncounted}
use plan_it.Services.Transactions.Marked.{find-key_of}
use plan_it.Store.Totals.{movement_total-put_same}
use plan_it.Store.Table.{find}

module _ (user : ℕ) where
  -- Creating a draft that succeeds changes no balance of any account at any moment.
  create_draft-movement_total :
      (command : CreateTransactionCommand) (s : Store) {t : Store}
      → create_draft user command s ≡ ok t
      → (account : ℕ) (as_of : Instant)
      → movement_total user account as_of t.transactions
        ≡ movement_total user account as_of s.transactions
  unfolding movement_total
  create_draft-movement_total command s h account as_of =
      let c = create_draft-IsCreated user command s h in
      ap (movement_total user account as_of) c.transactions_after
      ∙ (ap (λ n. n +ℤ movement_total user account as_of s.transactions)
            (draft-uncounted user account as_of c.row c.drafted)
          ∙ zero-+ℤ _)

  -- Changing a draft that succeeds, whatever it changes of the amount, the account or the moment,
  -- changes no balance of any account at any moment.
  pub update_draft-movement_total :
      (id : ℕ) (command : UpdateTransactionCommand) (operation : ℕ) (s : Store) {t : Store}
      → update_draft user id command operation s ≡ ok t
      → (account : ℕ) (as_of : Instant)
      → movement_total user account as_of t.transactions
        ≡ movement_total user account as_of s.transactions
  update_draft-movement_total id command operation s h account as_of =
      let u = update_draft-IsUpdated user id command operation s h in
      let (held, _) = get_transaction-find id user s u.owned in
      let own = find-key_of id s.transactions held in
      ap (movement_total user account as_of) u.transactions_after
      ∙ movement_total-put_same user account as_of u.row s.transactions
          (subst (λ k. find transaction_key k s.transactions ≡ some u.model) (sym u.same) own)
          (draft-uncounted user account as_of u.row u.still_draft
            ∙ sym (draft-uncounted user account as_of u.model u.was_draft))
