-- ===== src/Services/Transactions/Balances.antt =====
-- What the methods do to the balances of accounts.
use plan_it.Common.{
  if◌then◌else◌, ◌≡◌, arith, refl, some, ok, not, ℕ, ◌==◌, ◌&&◌, ap, ◌∙◌, subst, sym, ◌∷◌, ◌+◌,
  none, ◌≢◌, Option,
}
use plan_it.Common.Time.{Instant}
use plan_it.Common.Int.{pos, ◌+ℤ◌, ltb_ℤ, zero-+ℤ, ◌≤ℤ◌, neg, neg-neg}
use plan_it.Common.Text.{Text}
use plan_it.Services.Transactions.Posting.{post, PostTransactionCommand, posted_row}
use plan_it.Store.{TransactionModel, Store, transaction_key}
use plan_it.Ledger.Enums.{TransactionStatus, affects_balance}
use plan_it.Services.Transactions.Effect.{IsPosted, get_transaction-find, post-IsPosted}
use plan_it.Services.Transactions.Checks.{get_transaction}
use plan_it.Store.Balance.{movement_total, signed_amount}
use plan_it.Store.Totals.{counted, movement_total-put_new, movement_total-put_same}
use plan_it.Store.Table.{find-key, find, put, find-put}
use plan_it.Services.Transactions.Reversal.{
  reversed_row, ReverseTransactionCommand, reverse_transaction, reversal_row,
}
use plan_it.Ledger.Policies.{normalize_timestamp}
use plan_it.Services.Transactions.Reversed.{reverse_transaction-IsReversed}

pub draft-uncounted :
    (user account : ℕ) (as_of : Instant) (t : TransactionModel)
    → t.status ≡ TransactionStatus.draft
    → counted user account as_of t ≡ pos 0
draft-uncounted user account as_of t h = ground arith

-- Two rows of one account, moment, amount and effect that both count, or both do not.
counted-same :
    (user account : ℕ) (as_of : Instant) (t : TransactionModel) (status : TransactionStatus) (v : ℕ)
    → affects_balance status ≡ affects_balance t.status
    → counted user account as_of (record t { status = status; version = v })
      ≡ counted user account as_of t
counted-same user account as_of t status v h = rw h refl

module _ (now : Instant) (user : ℕ) where
  pub post-movement_total-at :
      (id : ℕ) (s : Store) {t : Store}
      → (p : IsPosted now user id s t) → (account : ℕ) (as_of : Instant)
      → movement_total user account as_of t.transactions
        ≡ movement_total user account as_of s.transactions
          +ℤ counted user account as_of (posted_row p.model)
  post-movement_total-at id s p account as_of =
      let (held, _) = get_transaction-find id user s p.owned in
      let place = find-key transaction_key id s.transactions held in
      ap (movement_total user account as_of) p.transactions_after
      ∙ movement_total-put_new user account as_of (posted_row p.model) s.transactions
          (subst (λ k. find transaction_key k s.transactions ≡ some p.model) (sym place) held)
          (draft-uncounted user account as_of p.model p.drafted)

  -- Posting a draft changes the movements of its account by exactly its amount, from its moment on:
  -- up for an inflow, down for an outflow. All other sums stay as they were.
  pub post-movement_total :
      (id : ℕ) (command : PostTransactionCommand) (operation : ℕ) (s : Store) {t : Store}
      → post now user id command operation s ≡ ok t
      → (model : TransactionModel) × (get_transaction id user s ≡ some model)
        × (model.status ≡ TransactionStatus.draft)
        × ((account : ℕ) (as_of : Instant)
            → movement_total user account as_of t.transactions
              ≡ movement_total user account as_of s.transactions
                +ℤ (if model.account_id == account && not (ltb_ℤ as_of model.occurred_at)
                    then signed_amount model
                    else pos 0))
  post-movement_total id command operation s h =
      let p = post-IsPosted now user id command operation s h in
      let (_, owner) = get_transaction-find id user s p.owned in
      (
        p.model,
        p.owned,
        p.drafted,
        λ account as_of.
            post-movement_total-at id s p account as_of
            ∙ ap (λ c. movement_total user account as_of s.transactions +ℤ c)
                (counted-posted p.model account as_of owner),
      )
    where
      counted-posted :
          (m : TransactionModel) (account : ℕ) (as_of : Instant)
          → m.user_id ≡ user
          → counted user account as_of (posted_row m) ≡ (
              if m.account_id == account && not (ltb_ℤ as_of m.occurred_at)
              then signed_amount m
              else pos 0)
      counted-posted m account as_of e = ground arith

  reversed-total :
      (s : Store) (o rev : TransactionModel) (account : ℕ) (as_of : Instant)
      → find transaction_key o.id s.transactions ≡ some o
      → find transaction_key rev.id s.transactions ≡ none
      → o.status ≡ TransactionStatus.posted
      → rev.status ≡ TransactionStatus.draft
      → movement_total user account as_of (
          put transaction_key
            (record rev { status = TransactionStatus.posted })
            (put transaction_key (reversed_row o) (rev ∷ s.transactions)))
        ≡ movement_total user account as_of s.transactions
          +ℤ counted user account as_of (record rev { status = TransactionStatus.posted })
  unfolding movement_total find
  reversed-total s o rev account as_of held unused was_posted drafted =
      let apart : rev.id ≢ o.id = λ e. let j = rw e at unused in cc in
      let ts = rev ∷ s.transactions in
      let first : find transaction_key o.id ts ≡ some o = ground arith in
      let inner = put transaction_key (reversed_row o) ts in
      let second : find transaction_key rev.id inner ≡ some rev =
        find-put transaction_key (reversed_row o) ts rev.id ∙ ground arith in
      movement_total-put_new user account as_of (record rev { status = TransactionStatus.posted })
        inner second (draft-uncounted user account as_of rev drafted)
      ∙ ap (λ m. m +ℤ counted user account as_of (record rev { status = TransactionStatus.posted }))
          (movement_total-put_same user account as_of (reversed_row o) ts first (
              counted-same user account as_of o TransactionStatus.reversed (o.version + 1)
                (ap affects_balance (sym was_posted)))
            ∙ (ap (λ c. c +ℤ movement_total user account as_of s.transactions)
                  (draft-uncounted user account as_of rev drafted)
                ∙ zero-+ℤ _))

  -- A reversal that succeeds takes what its original did to the balance of the account back from
  -- the moment of the reversal on, and changes no other balance and no earlier one.
  pub reverse_transaction-movement_total :
      (id : ℕ) (command : ReverseTransactionCommand) (s : Store) {t : Store}
      → reverse_transaction now user id command s ≡ ok t
      → (original : TransactionModel) × (at : Instant) × (get_transaction id user s ≡ some original)
        × (original.status ≡ TransactionStatus.posted)
        × (normalize_timestamp command.occurred_at ≡ ok at)
        × (original.occurred_at ≤ℤ at)
        × ((account : ℕ) (as_of : Instant)
            → movement_total user account as_of t.transactions
              ≡ movement_total user account as_of s.transactions
                +ℤ (if original.account_id == account && not (ltb_ℤ as_of at)
                    then neg (signed_amount original)
                    else pos 0))
  reverse_transaction-movement_total id command s {t} h =
      let r = reverse_transaction-IsReversed now user id command s h in
      let (held, _) = get_transaction-find id user s r.owned in
      let place = find-key transaction_key id s.transactions held in
      let row = reversal_row user r.original command r.occurred_at r.note in
      (
        r.original,
        r.occurred_at,
        r.owned,
        r.reversible.was_posted,
        r.reversible.dated,
        r.reversible.follows,
        λ account as_of.
            ap (movement_total user account as_of) r.transactions_after
            ∙ (reversed-total s r.original row account as_of
                  (subst (λ k. find transaction_key k s.transactions ≡ some r.original) (sym place)
                    held)
                  r.unused r.reversible.was_posted refl
                ∙ ap (λ c. movement_total user account as_of s.transactions +ℤ c)
                    (counted-reversal r.original command r.occurred_at r.note account as_of)),
      )
    where
      counted-reversal :
          (o : TransactionModel) (command : ReverseTransactionCommand) (at : Instant)
          (remark : Option Text) (account : ℕ) (as_of : Instant)
          → counted user account as_of
              (record (reversal_row user o command at remark) { status = TransactionStatus.posted })
            ≡ (if o.account_id == account && not (ltb_ℤ as_of at)
                then neg (signed_amount o)
                else pos 0)
      counted-reversal o command at remark account as_of = ground (arith, neg-neg o.amount)
