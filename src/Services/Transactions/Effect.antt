-- ===== src/Services/Transactions/Effect.antt =====
-- What the methods that succeed have found and written.
use plan_it.Common.{
  ◌≡◌, arith, refl, some, none, ok, true, inl, inr, Error, not, ℕ, List, >>=-eq-ok, Bool, or_raise,
  raise_if-eq-ok, ap, sym, ◌&&◌, ok-injective, or_raise-eq-ok, ◌∙◌, Option-cases, ◌==◌, dedup,
  subst,
}
use plan_it.Common.Time.{Instant}
use plan_it.Common.Text.{text_eq}
use plan_it.Common.Int.{ltb_ℤ}
use plan_it.Services.Transactions.Checks.{
  insert_transaction, get_transaction, require_transaction_account, update_transaction,
  require_category, require_tags, tag_ids_of,
}
use plan_it.Services.Transactions.Posting.{
  record_occurrence, post, check_post, PostTransactionCommand, row_money, posted_row,
  find_occurrence,
}
use plan_it.Services.Transactions.Purchases.{
  replace_items, TransactionItemCommand, item_rows, require_purchase_details, items_for,
}
use plan_it.Store.{add_audit_event, Store, TransactionModel, AccountModel, transaction_key}
use plan_it.Store.Movement.{violated, with_transaction, bump_account, with_account}
use plan_it.Ledger.Policies.{require_draft, require_core_kind, require_not_future}
use plan_it.Money.{Money}
use plan_it.Ledger.Enums.{TransactionStatus, is_active}
use plan_it.Store.Table.{find, put}
use plan_it.Store.Balance.{get_account, require_projected_balance, account_key}

pub get_transaction-find :
    (id user : ℕ) (s : Store) {t : TransactionModel}
    → get_transaction id user s ≡ some t
    → (find transaction_key id s.transactions ≡ some t) × (t.user_id ≡ user)
unfolding get_transaction
get_transaction-find id user s h = ground arith

violated-none :
    (m : TransactionModel) (s : Store)
    → violated m s ≡ none
    → find transaction_key m.id s.transactions ≡ none
unfolding violated
violated-none m s h = elim (Option-cases (find transaction_key m.id s.transactions)) [
  | inl absent ↦ absent
  | inr (r, present) ↦ let j = rw present at h in cc
]

pub insert_transaction-eq-ok :
    (m : TransactionModel) (s : Store) {t : Store}
    → insert_transaction m s ≡ ok t
    → (find transaction_key m.id s.transactions ≡ none) × (with_transaction m s ≡ t)
unfolding insert_transaction
insert_transaction-eq-ok m s h = elim (Option-cases (violated m s)) [
  | inl fits ↦ (violated-none m s fits, ok-injective (rw fits at h))
  | inr (c, broken) ↦ let j = rw broken at h in cc
]

pub replace_items-transactions :
    (id user : ℕ) (items : List TransactionItemCommand) (s : Store) {t : Store}
    → replace_items id user items s ≡ ok t
    → t.transactions ≡ s.transactions
unfolding replace_items
replace_items-transactions id user items s h =
    let (rows, _, h₁) = >>=-eq-ok (item_rows id user 0 items s) _ h in
    let (_, done) = raise_if-eq-ok _ _ _ h₁ in ap (λ u. u.transactions) (sym (ok-injective done))

pub replace_items-planning :
    (id user : ℕ) (items : List TransactionItemCommand) (s : Store) {t : Store}
    → replace_items id user items s ≡ ok t
    → (t.occurrences ≡ s.occurrences) × (t.rules ≡ s.rules)
unfolding replace_items
replace_items-planning id user items s h =
    let (rows, _, h₁) = >>=-eq-ok (item_rows id user 0 items s) _ h in
    let (_, done) = raise_if-eq-ok _ _ _ h₁ in
    (ap (λ u. u.occurrences) (sym (ok-injective done)), ap (λ u. u.rules) (sym (ok-injective done)))

-- An occurrence has no part in the other tables.
record_occurrence-kept :
    (user id operation : ℕ) (s : Store)
    → ((record_occurrence user id operation s).transactions ≡ s.transactions)
      × ((record_occurrence user id operation s).accounts ≡ s.accounts)
unfolding record_occurrence add_audit_event
record_occurrence-kept user id operation s =
    elim (Option-cases (find_occurrence user id s.occurrences)) [
      | inl absent ↦ rw (absent, record_occurrence) (refl, refl)
      | inr (o, present) ↦ rw (present, record_occurrence) (refl, refl)
    ]

module _ (now : Instant) (user : ℕ) where
  pub record IsPosted (id : ℕ) (s : Store) (t : Store) : Type 0 where
    pub model : TransactionModel
    pub account : AccountModel
    pub amount : Money
    pub owned : get_transaction id user s ≡ some model
    pub drafted : model.status ≡ TransactionStatus.draft
    pub priced : row_money model ≡ ok amount
    pub owned_account : get_account model.account_id user s ≡ some account
    pub projected :
        require_projected_balance account user amount model.effect model.occurred_at now s ≡ ok tt
    pub transactions_after : t.transactions ≡ put transaction_key (posted_row model) s.transactions
    pub accounts_after : t.accounts ≡ put account_key (bump_account account) s.accounts

  pub require_draft-eq-ok :
      (status : TransactionStatus) → require_draft status ≡ ok tt → status ≡ TransactionStatus.draft
  unfolding require_draft
  require_draft-eq-ok status h = ground arith

  pub require_transaction_account-eq-ok :
      (id : ℕ) (money : Money) (posting : Bool) (s : Store) {a : AccountModel}
      → require_transaction_account id user money posting s ≡ ok a
      → get_account id user s ≡ some a
  unfolding require_transaction_account
  require_transaction_account-eq-ok id money posting s h =
      let (account, found, h₁) =
        >>=-eq-ok (or_raise (get_account id user s) Error.account_not_found) _ h in
      let (_, h₂) = raise_if-eq-ok (not (text_eq account.currency money.currency)) _ _ h₁ in
      let (_, h₃) = raise_if-eq-ok (posting && not (is_active account.status)) _ _ h₂ in
      or_raise-eq-ok _ _ found ∙ ap some (ok-injective h₃)

  -- What the checks before the posting of a row have found.
  record IsPostable (model : TransactionModel) (s : Store) (account : AccountModel) (amount : Money)
      : Type 0 where
    drafted : model.status ≡ TransactionStatus.draft
    priced : row_money model ≡ ok amount
    owned_account : get_account model.account_id user s ≡ some account
    projected :
        require_projected_balance account user amount model.effect model.occurred_at now s ≡ ok tt

  check_post-IsPostable :
      (model : TransactionModel) (command : PostTransactionCommand) (s : Store)
      {account : AccountModel} {amount : Money}
      → check_post now user model command s ≡ ok (account, amount)
      → IsPostable model s account amount
  unfolding check_post
  check_post-IsPostable model command s h =
      let (_, drafted, h₁) = >>=-eq-ok (require_draft model.status) _ h in
      let (_, h₂) = raise_if-eq-ok (not (model.version == command.version)) _ _ h₁ in
      let (_, _, h₃) = >>=-eq-ok (require_core_kind model.kind) _ h₂ in
      let (_, _, h₄) = >>=-eq-ok (require_not_future model.occurred_at now) _ h₃ in
      let (m, priced, h₅) = >>=-eq-ok (row_money model) _ h₄ in
      let (a, found, h₆) =
        >>=-eq-ok (require_transaction_account model.account_id user m true s) _ h₅ in
      let (_, h₇) = raise_if-eq-ok (ltb_ℤ model.occurred_at a.opened_at) _ _ h₆ in
      let (_, _, h₈) = >>=-eq-ok (require_category user model.category_id model.kind true s) _ h₇ in
      let (_, _, h₉) =
        >>=-eq-ok (require_tags user (dedup (tag_ids_of model.id s.transaction_tags)) s) _ h₈ in
      let (_, _, h₁₀) =
        >>=-eq-ok
          (require_purchase_details user model.kind model.amount model.merchant_id
            model.merchant_location_id (items_for model.id s) s)
          _ h₉ in
      let (_, projected, h₁₁) =
        >>=-eq-ok (require_projected_balance a user m model.effect model.occurred_at now s) _ h₁₀ in
      subst (λ (r : AccountModel × Money). IsPostable model s r.0 r.1) (ok-injective h₁₁)
        (record {
          drafted = require_draft-eq-ok _ drafted;
          priced = priced;
          owned_account = require_transaction_account-eq-ok model.account_id m true s found;
          projected = projected;
        })

  pub post-IsPosted :
      (id : ℕ) (command : PostTransactionCommand) (operation : ℕ) (s : Store) {t : Store}
      → post now user id command operation s ≡ ok t
      → IsPosted id s t
  unfolding post add_audit_event
  post-IsPosted id command operation s {t} h =
      let (model, found, h₁) =
        >>=-eq-ok (or_raise (get_transaction id user s) Error.transaction_not_found) _ h in
      let ((account, amount), checked, h₂) = >>=-eq-ok (check_post now user model command s) _ h₁ in
      let facts = check_post-IsPostable model command s checked in
      let written = with_account (bump_account account) (update_transaction (posted_row model) s) in
      let (rows, accounts) = record_occurrence-kept user model.id operation written in
      let same = sym (ok-injective h₂) in
      record {
        model = model;
        account = account;
        amount = amount;
        owned = or_raise-eq-ok _ _ found;
        drafted = facts.drafted;
        priced = facts.priced;
        owned_account = facts.owned_account;
        projected = facts.projected;
        transactions_after = ap (λ u. u.transactions) same ∙ rows;
        accounts_after = ap (λ u. u.accounts) same ∙ accounts;
      }
