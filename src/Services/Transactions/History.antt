-- ===== src/Services/Transactions/History.antt =====
-- The ledger only grows: what one call does, and what any sequence of calls keeps.
use plan_it.Common.{
  ◌∷◌, ◌≡◌, refl, some, none, ok, true, false, inl, inr, ℕ, List, ◌==◌, Bool-cases, ==_iff, ap, ◌∙◌,
  subst, sym,
}
use plan_it.Common.Time.{Instant}
use plan_it.Store.Table.{find, put, find-put, find-key}
use plan_it.Store.{TransactionModel, Store, transaction_key}
use plan_it.Ledger.Enums.{affects_balance, TransactionStatus}
use plan_it.Services.Transactions.Drafts.{
  CreateTransactionCommand, create_draft, UpdateTransactionCommand, update_draft,
}
use plan_it.Services.Transactions.Posting.{PostTransactionCommand, post, posted_row}
use plan_it.Services.Transactions.Reversal.{
  ReverseTransactionCommand, reverse_transaction, reversed_row, reversal_row,
}
use plan_it.Services.Transactions.Drafted.{create_draft-IsCreated, update_draft-IsUpdated}
use plan_it.Services.Transactions.Effect.{get_transaction-find, post-IsPosted}
use plan_it.Services.Transactions.Reversed.{reverse_transaction-IsReversed}
use plan_it.Services.Transactions.Marked.{
  find-key_of, find-reversal_row, find-marked, find-original,
}

module _ (user : ℕ) where
  -- One call that succeeds, at some time, of any of the methods.
  pub data Call (s : Store) (t : Store) : Type 0 where
    creates : (command : CreateTransactionCommand) → create_draft user command s ≡ ok t → Call s t
    updates :
        (id : ℕ) (command : UpdateTransactionCommand) (operation : ℕ)
        → update_draft user id command operation s ≡ ok t
        → Call s t
    posts :
        (now : Instant) (id : ℕ) (command : PostTransactionCommand) (operation : ℕ)
        → post now user id command operation s ≡ ok t
        → Call s t
    reverses :
        (now : Instant) (id : ℕ) (command : ReverseTransactionCommand)
        → reverse_transaction now user id command s ≡ ok t
        → Call s t

  pub data Calls (s : Store) : Store → Type 0 where
    start : Calls s s
    next : {t u : Store} → Calls s t → Call t u → Calls s u

-- Under the identifier the table has a row with the property.
abbrev pub Kept : (TransactionModel → Type 0) → ℕ → List TransactionModel → Type 0
Kept P id ts = (q : TransactionModel) × (find transaction_key id ts ≡ some q) × P q

-- A property of rows that affect balances which the mark of a reversal keeps.
module _ (P : TransactionModel → Type 0)
    (counts : (q : TransactionModel) → P q → affects_balance q.status ≡ true)
    (marks : (q : TransactionModel) → P q → P (reversed_row q)) (id : ℕ) where
  Kept-cons :
      (row : TransactionModel) (ts : List TransactionModel)
      → find transaction_key row.id ts ≡ none
      → Kept P id ts
      → Kept P id (row ∷ ts)
  unfolding find
  Kept-cons row ts unused (q, held, facts) =
      let apart : (row.id == id) ≡ false = elim (Bool-cases (row.id == id)) [
        | inl e ↦ let same : row.id ≡ id = (==_iff _ _).0 e in let j = rw same at unused in cc
        | inr d ↦ d
      ] in
      (q, rw apart held, facts)

  Kept-put_other :
      (row old : TransactionModel) (ts : List TransactionModel)
      → find transaction_key row.id ts ≡ some old
      → affects_balance old.status ≡ false
      → Kept P id ts
      → Kept P id (put transaction_key row ts)
  Kept-put_other row old ts held_old quiet (q, held, facts) =
      let apart : (row.id == id) ≡ false = elim (Bool-cases (row.id == id)) [
        | inl e ↦
            let same : row.id ≡ id = (==_iff _ _).0 e in
            let j : find transaction_key id ts ≡ some old = rw same at held_old in
            let k : q ≡ old = cc in
            let l : affects_balance q.status ≡ false =
              ap (λ x. affects_balance x.status) k ∙ quiet in
            let m = counts q facts in cc
        | inr d ↦ d
      ] in
      (q, find-put transaction_key row ts id ∙ rw apart held, facts)

  Kept-put_marked :
      (old : TransactionModel) (ts : List TransactionModel)
      → find transaction_key old.id ts ≡ some old
      → Kept P id ts
      → Kept P id (put transaction_key (reversed_row old) ts)
  Kept-put_marked old ts held_old (q, held, facts) = elim (Bool-cases (old.id == id)) [
    | inl e ↦
        let same : old.id ≡ id = (==_iff _ _).0 e in
        let j : find transaction_key id ts ≡ some old =
          subst (λ k. find transaction_key k ts ≡ some old) same held_old in
        let k : q ≡ old = cc in
        (
          reversed_row old,
          find-put transaction_key (reversed_row old) ts id ∙ rw e refl,
          marks old (subst P k facts),
        )
    | inr d ↦ (q, find-put transaction_key (reversed_row old) ts id ∙ rw d held, facts)
  ]

  module _ (user : ℕ) where
    Call-Kept : {s t : Store} → Call user s t → Kept P id s.transactions → Kept P id t.transactions
    Call-Kept {s} {t} (Call.creates command h) known =
        let c = create_draft-IsCreated user command s h in
        subst (Kept P id) (sym c.transactions_after) (Kept-cons c.row s.transactions c.unused known)
    Call-Kept {s} {t} (Call.updates key command operation h) known =
        let u = update_draft-IsUpdated user key command operation s h in
        let (held, _) = get_transaction-find key user s u.owned in
        let own = find-key_of key s.transactions held in
        subst (Kept P id) (sym u.transactions_after) (
          Kept-put_other u.row u.model s.transactions
            (subst (λ k. find transaction_key k s.transactions ≡ some u.model) (sym u.same) own)
            (ap affects_balance u.was_draft) known)
    Call-Kept {s} {t} (Call.posts now key command operation h) known =
        let p = post-IsPosted now user key command operation s h in
        let (held, _) = get_transaction-find key user s p.owned in
        subst (Kept P id) (sym p.transactions_after) (
          Kept-put_other (posted_row p.model) p.model s.transactions
            (find-key_of key s.transactions held) (ap affects_balance p.drafted) known)
    Call-Kept {s} {t} (Call.reverses now key command h) known =
        let v = reverse_transaction-IsReversed now user key command s h in
        let (held, _) = get_transaction-find key user s v.owned in
        let own = find-key_of key s.transactions held in
        let o = v.original in
        let rev = reversal_row user o command v.occurred_at v.note in
        subst (Kept P id) (sym v.transactions_after) (
          Kept-put_other (record rev { status = TransactionStatus.posted }) rev
            (put transaction_key (reversed_row o) (rev ∷ s.transactions))
            (find-reversal_row s o rev own v.unused) refl
            (Kept-put_marked o (rev ∷ s.transactions) (find-original s o rev own v.unused)
              (Kept-cons rev s.transactions v.unused known)))

    Calls-Kept :
        {s t : Store} → Calls user s t → Kept P id s.transactions → Kept P id t.transactions
    Calls-Kept Calls.start known = known
    Calls-Kept (Calls.next earlier last) known = Call-Kept last (Calls-Kept earlier known)

-- A row with the financial facts of `r` that affects balances.
abbrev pub Records : TransactionModel → TransactionModel → Type 0
Records r q =
    (affects_balance q.status ≡ true)
    × (q.id ≡ r.id)
    × (q.user_id ≡ r.user_id)
    × (q.account_id ≡ r.account_id)
    × (q.effect ≡ r.effect)
    × (q.amount ≡ r.amount)
    × (q.currency ≡ r.currency)
    × (q.occurred_at ≡ r.occurred_at)

module _ (user : ℕ) where
  -- No sequence of calls removes or changes what has been posted: a row that affects balances is
  -- found under its identifier ever after, with the same owner, account, effect, amount, currency
  -- and moment, and still affects balances.
  pub history-Kept :
      {s t : Store} (r : TransactionModel)
      → Calls user s t
      → find transaction_key r.id s.transactions ≡ some r
      → affects_balance r.status ≡ true
      → Kept (Records r) r.id t.transactions
  history-Kept r calls held counts =
      Calls-Kept (Records r) (λ q facts. facts.0)
        (λ q (_, a, b, c, d, e, f, g). (refl, a, b, c, d, e, f, g)) r.id user calls
        (r, held, (counts, refl, refl, refl, refl, refl, refl, refl))

  -- A transaction is reversed at most once: after a reversal that succeeds, and any further calls
  -- that succeed, each attempt to reverse the same transaction is refused.
  pub reversed_once :
      (now : Instant) (id : ℕ) (command : ReverseTransactionCommand) (s : Store) {t u v : Store}
      (later : Instant) (again : ReverseTransactionCommand)
      → reverse_transaction now user id command s ≡ ok t
      → Calls user t u
      → ¬ (reverse_transaction later user id again u ≡ ok v)
  reversed_once now id command s {t} {u} {v} later again done calls retried =
      let r = reverse_transaction-IsReversed now user id command s done in
      let (held, _) = get_transaction-find id user s r.owned in
      let own = find-key_of id s.transactions held in
      let o = r.original in
      let rev = reversal_row user o command r.occurred_at r.note in
      let place : o.id ≡ id = find-key transaction_key id s.transactions held in
      let marked : find transaction_key id t.transactions ≡ some (reversed_row o) =
        subst (λ k. find transaction_key k t.transactions ≡ some (reversed_row o)) place
          (ap (find transaction_key o.id) r.transactions_after
            ∙ find-marked s o rev own r.unused) in
      let (q, kept, status) =
        Calls-Kept (λ q. q.status ≡ TransactionStatus.reversed) (λ q e. ap affects_balance e)
          (λ q e. refl) id user calls (reversed_row o, marked, refl) in
      let w = reverse_transaction-IsReversed later user id again u retried in
      let (found, _) = get_transaction-find id user u w.owned in
      let posted = w.reversible.was_posted in
      let same : q ≡ w.original = cc in
      let clash : TransactionStatus.reversed ≡ TransactionStatus.posted =
        sym status ∙ (ap (λ x. x.status) same ∙ posted) in
      cc
