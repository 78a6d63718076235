-- ===== src/Services/Transactions/Drafted.antt =====
-- What the methods on drafts write to the table of transactions.
use plan_it.Common.{
  ◌∷◌, ◌≡◌, refl, ◌+◌, some, none, ok, Error, ℕ, Option, List, ap, sym, ok-injective, >>=-eq-ok,
  or_raise, dedup, or_raise-eq-ok, ◌∙◌,
}
use plan_it.Common.Int.{pos}
use plan_it.Common.Time.{Instant}
use plan_it.Services.Transactions.Drafts.{
  given_items, create_draft, update_draft, CreateTransactionCommand, UpdateTransactionCommand,
  check_draft, given, given_text, draft_of, write_update, check_update,
}
use plan_it.Services.Transactions.Checks.{
  get_transaction, replace_tags, insert_transaction, tag_ids_of, update_transaction,
}
use plan_it.Store.Table.{find, put}
use plan_it.Services.Transactions.Purchases.{TransactionItemCommand, replace_items}
use plan_it.Ledger.Enums.{TransactionStatus}
use plan_it.Services.Transactions.Effect.{
  replace_items-transactions, require_draft-eq-ok, insert_transaction-eq-ok, replace_items-planning,
}
use plan_it.Store.{Store, TransactionModel, add_audit_event, transaction_key, AccountModel}
use plan_it.Ledger.Policies.{
  require_core_kind, require_draft, normalize_timestamp, effect_for, normalize_optional_text,
  TextField,
}
use plan_it.Money.{require_positive, Money}

module _ (user : ℕ) where
  pub record IsCreated (s : Store) (t : Store) : Type 0 where
    pub row : TransactionModel
    pub unused : find transaction_key row.id s.transactions ≡ none
    pub drafted : row.status ≡ TransactionStatus.draft
    pub transactions_after : t.transactions ≡ row ∷ s.transactions
    pub occurrences_after : t.occurrences ≡ s.occurrences
    pub rules_after : t.rules ≡ s.rules

  pub record IsUpdated (id : ℕ) (s : Store) (t : Store) : Type 0 where
    pub model : TransactionModel
    pub row : TransactionModel
    pub owned : get_transaction id user s ≡ some model
    pub was_draft : model.status ≡ TransactionStatus.draft
    pub same : row.id ≡ model.id
    pub still_draft : row.status ≡ TransactionStatus.draft
    pub transactions_after : t.transactions ≡ put transaction_key row s.transactions

  pub create_draft-IsCreated :
      (command : CreateTransactionCommand) (s : Store) {t : Store}
      → create_draft user command s ≡ ok t
      → IsCreated s t
  unfolding create_draft replace_tags add_audit_event
  create_draft-IsCreated command s {t} h =
      let (_, _, h₁) = >>=-eq-ok (require_core_kind command.kind) _ h in
      let (_, _, h₂) = >>=-eq-ok (require_positive command.amount Error.non_positive_amount) _ h₁ in
      let (_, _, h₃) = >>=-eq-ok (normalize_timestamp command.occurred_at) _ h₂ in
      let tags = dedup command.tag_ids in
      let ((account, at), _, h₄) =
        >>=-eq-ok
          (check_draft user command.kind command.amount command.account_id command.occurred_at
            command.category_id tags command.merchant_id command.merchant_location_id command.items
            s)
          _ h₃ in
      let (effect, _, h₅) = >>=-eq-ok (effect_for command.kind) _ h₄ in
      let (counterparty, _, h₆) =
        >>=-eq-ok (normalize_optional_text command.counterparty TextField.counterparty 160) _ h₅ in
      let (remark, _, h₇) =
        >>=-eq-ok (normalize_optional_text command.note TextField.other_text 2000) _ h₆ in
      let model = draft_of user command account effect at counterparty remark in
      let (added, inserted, h₈) = >>=-eq-ok (insert_transaction model s) _ h₇ in
      let (detailed, items, h₉) =
        >>=-eq-ok
          (replace_items command.id user command.items (replace_tags command.id user tags added)) _
          h₈ in
      let (unused, e) = insert_transaction-eq-ok model s inserted in
      let (occurrences, rules) =
        replace_items-planning command.id user command.items
          (replace_tags command.id user tags added) items in
      record {
        row = model;
        unused = unused;
        drafted = refl;
        transactions_after =
            ap (λ u. u.transactions) (sym (ok-injective h₉))
            ∙ (replace_items-transactions command.id user command.items
                  (replace_tags command.id user tags added) items
                ∙ ap (λ u. u.transactions) (sym e));
        occurrences_after =
            ap (λ u. u.occurrences) (sym (ok-injective h₉))
            ∙ (occurrences ∙ ap (λ u. u.occurrences) (sym e));
        rules_after =
            ap (λ u. u.rules) (sym (ok-injective h₉)) ∙ (rules ∙ ap (λ u. u.rules) (sym e));
      }

  given_items-transactions :
      (given : Option (List TransactionItemCommand)) (id : ℕ) (s : Store) {t : Store}
      → given_items user given id s ≡ ok t
      → t.transactions ≡ s.transactions
  unfolding given_items
  given_items-transactions none id s h = ap (λ u. u.transactions) (sym (ok-injective h))
  given_items-transactions (some items) id s h = replace_items-transactions id user items s h

  check_update-draft :
      (model : TransactionModel) (command : UpdateTransactionCommand) (s : Store)
      {r : Money × AccountModel × Instant}
      → check_update user model command s ≡ ok r
      → model.status ≡ TransactionStatus.draft
  unfolding check_update
  check_update-draft model command s h =
      let (_, drafted, _) = >>=-eq-ok (require_draft model.status) _ h in
      require_draft-eq-ok (pos 0) user _ drafted

  write_update-transactions :
      (model : TransactionModel) (command : UpdateTransactionCommand) (amount : Money)
      (account : AccountModel) (at : Instant) (operation : ℕ) (s : Store) {t : Store}
      → write_update user model command amount account at operation s ≡ ok t
      → (row : TransactionModel) × (row.id ≡ model.id)
        × (row.status ≡ model.status)
        × (t.transactions ≡ put transaction_key row s.transactions)
  unfolding write_update replace_tags add_audit_event
  write_update-transactions model command amount account at operation s h =
      let (effect, _, h₁) = >>=-eq-ok (effect_for (given command.kind model.kind)) _ h in
      let (counterparty, _, h₂) =
        >>=-eq-ok (given_text command.counterparty model.counterparty TextField.counterparty 160) _
          h₁ in
      let (remark, _, h₃) =
        >>=-eq-ok (given_text command.note model.note TextField.other_text 2000) _ h₂ in
      let row = record model {
        account_id = account.id;
        kind = given command.kind model.kind;
        effect = effect;
        amount = amount.amount;
        currency = account.currency;
        occurred_at = at;
        category_id = given command.category_id model.category_id;
        merchant_id = given command.merchant_id model.merchant_id;
        merchant_location_id = given command.merchant_location_id model.merchant_location_id;
        counterparty = counterparty;
        note = remark;
        version = model.version + 1;
      } in
      let tags = dedup (given command.tag_ids (tag_ids_of model.id s.transaction_tags)) in
      let (detailed, items, h₄) =
        >>=-eq-ok
          (given_items user command.items model.id
            (replace_tags model.id user tags (update_transaction row s)))
          _ h₃ in
      (
        row,
        refl,
        refl,
        ap (λ u. u.transactions) (sym (ok-injective h₄))
            ∙ given_items-transactions command.items model.id
                (replace_tags model.id user tags (update_transaction row s)) items,
      )

  pub update_draft-IsUpdated :
      (id : ℕ) (command : UpdateTransactionCommand) (operation : ℕ) (s : Store) {t : Store}
      → update_draft user id command operation s ≡ ok t
      → IsUpdated id s t
  unfolding update_draft
  update_draft-IsUpdated id command operation s {t} h =
      let (model, found, h₁) =
        >>=-eq-ok (or_raise (get_transaction id user s) Error.transaction_not_found) _ h in
      let ((amount, account, at), checked, h₂) =
        >>=-eq-ok (check_update user model command s) _ h₁ in
      let drafted = check_update-draft model command s checked in
      let (row, same, status, after) =
        write_update-transactions model command amount account at operation s h₂ in
      record {
        model = model;
        row = row;
        owned = or_raise-eq-ok _ _ found;
        was_draft = drafted;
        same = same;
        still_draft = status ∙ drafted;
        transactions_after = after;
      }
