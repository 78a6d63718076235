-- ===== src/Store/Totals.antt =====
-- How the sums of movements follow the writes of rows.
use plan_it.Common.{
  if◌then◌else◌, ◌∷◌, ◌≡◌, some, [], inl, inr, ℕ, List, sym, ◌∙◌, Bool-cases, ap, ◌==◌, subst,
}
use plan_it.Common.Time.{Instant}
use plan_it.Common.Int.{ℤ, pos, +ℤ_cancel, ◌+ℤ◌, +ℤ-zero, +ℤ_exchange, +ℤ_under}
use plan_it.Store.Balance.{movement_total, is_counted, signed_amount}
use plan_it.Store.{TransactionModel, transaction_key}
use plan_it.Store.Table.{find, put}

-- What a row adds to the balance of an account at a moment.
abbrev pub counted : ℕ → ℕ → Instant → TransactionModel → ℤ
counted user account as_of t = if is_counted user account as_of t then signed_amount t else pos 0

-- Replacing a row replaces what it adds.
pub movement_total-put :
    (user account : ℕ) (as_of : Instant) (t : TransactionModel) (ts : List TransactionModel)
    {old : TransactionModel}
    → find transaction_key t.id ts ≡ some old
    → movement_total user account as_of (put transaction_key t ts) +ℤ counted user account as_of old
      ≡ movement_total user account as_of ts +ℤ counted user account as_of t
unfolding movement_total find put
movement_total-put user account as_of t [] h = cc
movement_total-put user account as_of t (q ∷ qs) {old} h = elim (Bool-cases (q.id == t.id)) [
  | inl same ↦
      let j : some q ≡ some old = rw same at h in
      let e : q ≡ old = cc in
      rw same (
        subst
          (λ o.
            (counted user account as_of t +ℤ movement_total user account as_of qs)
              +ℤ counted user account as_of o
            ≡ (counted user account as_of q +ℤ movement_total user account as_of qs)
              +ℤ counted user account as_of t)
          e
          (+ℤ_exchange (counted user account as_of t) (movement_total user account as_of qs)
            (counted user account as_of q)))
  | inr other ↦
      let ih = movement_total-put user account as_of t qs {old = old} (rw other at h) in
      rw other (
        +ℤ_under (counted user account as_of q)
          (movement_total user account as_of (put transaction_key t qs))
          (counted user account as_of old) (movement_total user account as_of qs)
          (counted user account as_of t) ih)
]

-- A row that adds as much as the one it replaces changes no sum.
pub movement_total-put_same :
    (user account : ℕ) (as_of : Instant) (t : TransactionModel) (ts : List TransactionModel)
    {old : TransactionModel}
    → find transaction_key t.id ts ≡ some old
    → counted user account as_of t ≡ counted user account as_of old
    → movement_total user account as_of (put transaction_key t ts)
      ≡ movement_total user account as_of ts
movement_total-put_same user account as_of t ts {old} h e =
    +ℤ_cancel _ _ (counted user account as_of old) (
      movement_total-put user account as_of t ts h
      ∙ ap (λ c. movement_total user account as_of ts +ℤ c) e)

-- A row that replaces one that adds nothing.
pub movement_total-put_new :
    (user account : ℕ) (as_of : Instant) (t : TransactionModel) (ts : List TransactionModel)
    {old : TransactionModel}
    → find transaction_key t.id ts ≡ some old
    → counted user account as_of old ≡ pos 0
    → movement_total user account as_of (put transaction_key t ts)
      ≡ movement_total user account as_of ts +ℤ counted user account as_of t
movement_total-put_new user account as_of t ts {old} h e =
    sym (+ℤ-zero _)
    ∙ (ap (λ c. movement_total user account as_of (put transaction_key t ts) +ℤ c) (sym e)
        ∙ movement_total-put user account as_of t ts h)
