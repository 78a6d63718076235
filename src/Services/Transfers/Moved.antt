-- ===== src/Services/Transfers/Moved.antt =====
-- What a transfer does to the balances of accounts.
use plan_it.Common.{
  if◌then◌else◌, ◌∷◌, ◌≡◌, some, none, [], ok, inl, inr, not, ℕ, Option, List, ◌==◌, raise_if-eq-ok,
  Bool-cases, ap, ◌&&◌, ==_iff, >>=-eq-ok, any, sym, ok-injective, ◌∙◌,
}
use plan_it.Common.Time.{Instant}
use plan_it.Common.Int.{ℤ, pos, ◌+ℤ◌, neg, ltb_ℤ, +ℤ-zero, +ℤ_comm, +ℤ_assoc}
use plan_it.Services.Transfers.Evaluate.{account_of}
use plan_it.Services.Transfers.Commit.{
  add_movement_row, insert_transfer, add_movement_rows, bump_accounts, repeats_transfer_id,
  transfer_conflict, repeats_transfer_operation,
}
use plan_it.Store.Balance.{movement_total}
use plan_it.Ledger.Transfer.{TransferFee}
use plan_it.Store.Rows.{TransferModel}
use plan_it.Store.{TransactionModel, Store, AccountModel}
use plan_it.Store.Movement.{with_transaction, with_account, violated, bump_account}
use plan_it.Store.Totals.{counted}

-- What the rows add to the balance of an account at a moment.
abbrev pub counted_all : ℕ → ℕ → Instant → List TransactionModel → ℤ
counted_all user account as_of [] = pos 0
counted_all user account as_of (t ∷ ts) =
    counted user account as_of t +ℤ counted_all user account as_of ts

add_movement_row-eq-ok :
    (m : TransactionModel) (s : Store) {t : Store}
    → add_movement_row m s ≡ ok t
    → with_transaction m s ≡ t
unfolding add_movement_row
add_movement_row-eq-ok m s h =
    let (_, _, h₁) = >>=-eq-ok (transfer_conflict (violated m s)) _ h in ok-injective h₁

pub add_movement_rows-movement_total :
    (user account : ℕ) (as_of : Instant) (ts : List TransactionModel) (s : Store) {t : Store}
    → add_movement_rows ts s ≡ ok t
    → movement_total user account as_of t.transactions
      ≡ movement_total user account as_of s.transactions +ℤ counted_all user account as_of ts
unfolding add_movement_rows movement_total
add_movement_rows-movement_total user account as_of [] s h =
    ap (λ u. movement_total user account as_of u.transactions) (sym (ok-injective h))
    ∙ sym (+ℤ-zero _)
add_movement_rows-movement_total user account as_of (m ∷ ts) s {t} h =
    let (next, added, rest) = >>=-eq-ok (add_movement_row m s) (add_movement_rows ts) h in
    let ih = add_movement_rows-movement_total user account as_of ts next rest in
    let e = add_movement_row-eq-ok m s added in
    ih
    ∙ (ap
          (λ u.
            movement_total user account as_of u.transactions +ℤ counted_all user account as_of ts)
          (sym e)
        ∙ (ap (λ n. n +ℤ counted_all user account as_of ts) (+ℤ_comm _ _) ∙ +ℤ_assoc _ _ _))

pub account_of-id :
    (k : ℕ) (accounts : List AccountModel) {a : AccountModel}
    → account_of k accounts ≡ ok a
    → a.id ≡ k
unfolding account_of
account_of-id k [] h = cc
account_of-id k (b ∷ bs) h = elim (Bool-cases (b.id == k)) [
  | inl e ↦
      let same : b.id ≡ k = (==_iff _ _).0 e in
      ap (λ (x : AccountModel). x.id) (sym (ok-injective (rw e at h))) ∙ same
  | inr e ↦ account_of-id k bs (rw e at h)
]

pub bump_accounts-transactions :
    (ks : List ℕ) (accounts : List AccountModel) (s : Store) {t : Store}
    → bump_accounts ks accounts s ≡ ok t
    → t.transactions ≡ s.transactions
unfolding bump_accounts
bump_accounts-transactions [] accounts s h = ap (λ u. u.transactions) (sym (ok-injective h))
bump_accounts-transactions (k ∷ ks) accounts s h =
    let (account, _, h₁) = >>=-eq-ok (account_of k accounts) _ h in
    bump_accounts-transactions ks accounts (with_account (bump_account account) s) h₁

pub insert_transfer-transactions :
    (m : TransferModel) (s : Store) {t : Store}
    → insert_transfer m s ≡ ok t
    → t.transactions ≡ s.transactions
unfolding insert_transfer
insert_transfer-transactions m s h =
    let (_, h₁) = raise_if-eq-ok (any (repeats_transfer_id m) s.transfers) _ _ h in
    let (_, h₂) = raise_if-eq-ok (any (repeats_transfer_operation m) s.transfers) _ _ h₁ in
    ap (λ u. u.transactions) (sym (ok-injective h₂))

-- What an amount that leaves or reaches the account `k` at a time is for an account at a moment.
abbrev pub change_at : ℕ → Instant → ℤ → ℕ → Instant → ℤ
change_at k at amount account as_of = if k == account && not (ltb_ℤ as_of at) then amount else pos 0

abbrev pub fee_change : Option TransferFee → Instant → ℕ → Instant → ℤ
fee_change none at account as_of = pos 0
fee_change (some fee) at account as_of =
    change_at fee.account_id at (neg fee.amount.amount) account as_of
