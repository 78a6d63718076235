-- ===== src/Services/Transactions/Marked.antt =====
-- Where the rows of a reversal are found after its writes.
use plan_it.Common.{◌∷◌, ◌≡◌, arith, some, none, ℕ, List, ◌≢◌, subst, sym, ◌∙◌}
use plan_it.Store.Table.{find, put, find-key, find-put}
use plan_it.Store.{Store, TransactionModel, transaction_key}
use plan_it.Ledger.Enums.{TransactionStatus}
use plan_it.Services.Transactions.Reversal.{reversed_row}

-- The draft of a reversal is found once its original has been marked.
pub find-reversal_row :
    (s : Store) (o rev : TransactionModel)
    → find transaction_key o.id s.transactions ≡ some o
    → find transaction_key rev.id s.transactions ≡ none
    → find transaction_key rev.id (put transaction_key (reversed_row o) (rev ∷ s.transactions))
      ≡ some rev
unfolding find
find-reversal_row s o rev held unused =
    let apart : rev.id ≢ o.id = λ e. let j = rw e at unused in cc in
    find-put transaction_key (reversed_row o) (rev ∷ s.transactions) rev.id ∙ ground arith

pub find-original :
    (s : Store) (o rev : TransactionModel)
    → find transaction_key o.id s.transactions ≡ some o
    → find transaction_key rev.id s.transactions ≡ none
    → find transaction_key o.id (rev ∷ s.transactions) ≡ some o
unfolding find
find-original s o rev held unused =
    let apart : rev.id ≢ o.id = λ e. let j = rw e at unused in cc in ground arith

-- The mark of the original is found after both writes.
pub find-marked :
    (s : Store) (o rev : TransactionModel)
    → find transaction_key o.id s.transactions ≡ some o
    → find transaction_key rev.id s.transactions ≡ none
    → find transaction_key o.id (
        put transaction_key
          (record rev { status = TransactionStatus.posted })
          (put transaction_key (reversed_row o) (rev ∷ s.transactions)))
      ≡ some (reversed_row o)
unfolding find
find-marked s o rev held unused =
    let apart : rev.id ≢ o.id = λ e. let j = rw e at unused in cc in
    find-put transaction_key (record rev { status = TransactionStatus.posted })
      (put transaction_key (reversed_row o) (rev ∷ s.transactions)) o.id
    ∙ rw (find-put transaction_key (reversed_row o) (rev ∷ s.transactions) o.id) (ground arith)

pub find-key_of :
    (id : ℕ) (ts : List TransactionModel) {r : TransactionModel}
    → find transaction_key id ts ≡ some r
    → find transaction_key r.id ts ≡ some r
find-key_of id ts {r} held =
    subst (λ k. find transaction_key k ts ≡ some r) (sym (find-key transaction_key id ts held)) held
