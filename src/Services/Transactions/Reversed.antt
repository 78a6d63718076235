-- ===== src/Services/Transactions/Reversed.antt =====
-- What a reversal that succeeds has found and written.
use plan_it.Common.{
  ◌∷◌, ◌≡◌, arith, some, none, ok, true, false, Error, not, ℕ, raise_if-eq-ok, Option, >>=-eq-ok,
  ◌==◌, or_raise, subst, sym, ok-injective, or_raise-eq-ok, ap, ◌∙◌, eq_of_passed,
}
use plan_it.Common.Time.{Instant}
use plan_it.Common.Int.{ℤ, ltb_ℤ, ◌≤ℤ◌}
use plan_it.Common.Text.{Text}
use plan_it.Services.Transactions.Reversal.{
  check_reverse, reverse_transaction, ReverseTransactionCommand, write_reversal, reversal_row,
  reversal_effect, reversed_row,
}
use plan_it.Ledger.Policies.{
  require_reversible, normalize_timestamp, require_not_future, normalize_optional_text, TextField,
}
use plan_it.Store.{TransactionModel, Store, AccountModel, add_audit_event, transaction_key}
use plan_it.Ledger.Enums.{TransactionStatus, TransactionKind}
use plan_it.Services.Transactions.Checks.{
  replace_tags, get_transaction, require_transaction_account, insert_transaction,
}
use plan_it.Store.Balance.{get_account, require_projected_balance, account_key}
use plan_it.Store.Table.{find, put}
use plan_it.Services.Transactions.Posting.{row_money}
use plan_it.Services.Transactions.Effect.{
  insert_transaction-eq-ok, require_transaction_account-eq-ok,
}
use plan_it.Store.Movement.{bump_account}

module _ (now : Instant) (user : ℕ) where
  pub record IsReversible (original : TransactionModel) (command : ReverseTransactionCommand)
      (s : Store) (account : AccountModel) (occurred_at : Instant) : Type 0 where
    pub current : original.version ≡ command.version
    pub was_posted : original.status ≡ TransactionStatus.posted
    pub dated : normalize_timestamp command.occurred_at ≡ ok occurred_at
    pub follows : original.occurred_at ≤ℤ occurred_at
    pub owned_account : get_account original.account_id user s ≡ some account

  require_reversible-posted :
      (status : TransactionStatus) (kind : TransactionKind)
      → require_reversible status kind ≡ ok tt
      → status ≡ TransactionStatus.posted
  unfolding require_reversible
  require_reversible-posted status kind h = ground arith

  follows_lem : (a b : ℤ) → ltb_ℤ b a ≡ false → a ≤ℤ b
  follows_lem a b h = ground arith

  check_reverse-IsReversible :
      (original : TransactionModel) (command : ReverseTransactionCommand) (s : Store)
      {account : AccountModel} {occurred_at : Instant}
      → check_reverse now user original command s ≡ ok (account, occurred_at)
      → IsReversible original command s account occurred_at
  unfolding check_reverse
  check_reverse-IsReversible original command s h =
      let (same, h₁) = raise_if-eq-ok (not (original.version == command.version)) _ _ h in
      let (_, reversible, h₂) = >>=-eq-ok (require_reversible original.status original.kind) _ h₁ in
      let (time, dated, h₃) = >>=-eq-ok (normalize_timestamp command.occurred_at) _ h₂ in
      let (_, _, h₄) = >>=-eq-ok (require_not_future time now) _ h₃ in
      let (follows, h₅) = raise_if-eq-ok (ltb_ℤ time original.occurred_at) _ _ h₄ in
      let (m, _, h₆) = >>=-eq-ok (row_money original) _ h₅ in
      let (a, found, h₇) =
        >>=-eq-ok (require_transaction_account original.account_id user m true s) _ h₆ in
      let (_, _, h₈) =
        >>=-eq-ok (require_projected_balance a user m (reversal_effect original.effect) time now s)
          _ h₇ in
      subst (λ (r : AccountModel × Instant). IsReversible original command s r.0 r.1)
        (ok-injective h₈)
        (record {
          current = eq_of_passed _ _ same;
          was_posted = require_reversible-posted _ _ reversible;
          dated = dated;
          follows = follows_lem original.occurred_at time follows;
          owned_account =
              require_transaction_account-eq-ok now user original.account_id m true s found;
        })

  pub record IsReversed (id : ℕ) (command : ReverseTransactionCommand) (s : Store) (t : Store)
      : Type 0 where
    pub original : TransactionModel
    pub account : AccountModel
    pub occurred_at : Instant
    pub note : Option Text
    pub owned : get_transaction id user s ≡ some original
    pub reversible : IsReversible original command s account occurred_at
    pub unused : find transaction_key command.id s.transactions ≡ none
    pub transactions_after :
        t.transactions
        ≡ put transaction_key
            (record (reversal_row user original command occurred_at note) {
              status = TransactionStatus.posted;
            })
            (put transaction_key
              (reversed_row original)
              (reversal_row user original command occurred_at note ∷ s.transactions))
    pub accounts_after : t.accounts ≡ put account_key (bump_account account) s.accounts

  pub reverse_transaction-IsReversed :
      (id : ℕ) (command : ReverseTransactionCommand) (s : Store) {t : Store}
      → reverse_transaction now user id command s ≡ ok t
      → IsReversed id command s t
  unfolding reverse_transaction write_reversal replace_tags add_audit_event
  reverse_transaction-IsReversed id command s {t} h =
      let (original, found, h₁) =
        >>=-eq-ok (or_raise (get_transaction id user s) Error.transaction_not_found) _ h in
      let ((account, time), checked, h₂) =
        >>=-eq-ok (check_reverse now user original command s) _ h₁ in
      let (note, _, h₃) =
        >>=-eq-ok (normalize_optional_text command.note TextField.other_text 2000) _ h₂ in
      let row = reversal_row user original command time note in
      let (added, inserted, h₄) = >>=-eq-ok (insert_transaction row s) _ h₃ in
      let (unused, e) = insert_transaction-eq-ok row s inserted in
      let same = sym (ok-injective h₄) in
      let posted = record row { status = TransactionStatus.posted } in
      record {
        original = original;
        account = account;
        occurred_at = time;
        note = note;
        owned = or_raise-eq-ok _ _ found;
        reversible = check_reverse-IsReversible original command s checked;
        unused = unused;
        transactions_after =
            ap (λ u. u.transactions) same
            ∙ ap
                (λ u.
                  put transaction_key posted
                    (put transaction_key (reversed_row original) u.transactions))
                (sym e);
        accounts_after =
            ap (λ u. u.accounts) same
            ∙ ap (λ u. put account_key (bump_account account) u.accounts) (sym e);
      }
