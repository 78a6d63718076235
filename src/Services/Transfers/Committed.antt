-- ===== src/Services/Transfers/Committed.antt =====
-- The theorem on the balances after a transfer.
use plan_it.Common.{
  ◌∷◌, ◌≡◌, arith, refl, some, none, ok, true, false, not, ℕ, List, Option, >>=-eq-ok, ap, sym,
  ok-injective, ◌∙◌, Bool, raise_if-eq-ok,
}
use plan_it.Common.Time.{Instant}
use plan_it.Common.Text.{Text, text_eq, text_eq_iff}
use plan_it.Common.Int.{ℤ, neg, ◌+ℤ◌, +ℤ-zero}
use plan_it.Ledger.Reallocation.{FingerprintPart}
use plan_it.Store.{TransactionModel, add_audit_event, AccountModel, Store}
use plan_it.Ledger.Enums.{TransactionStatus}
use plan_it.Services.Transfers.Commit.{
  fee_rows, write_transfer, source_row, fee_row, destination_row, add_movement_rows,
  insert_transfer, bump_accounts, commit_in_transaction, has_repeated,
}
use plan_it.Services.Transfers.Evaluate.{
  TransferPreviewCommand, CommitTransferCommand, account_of, transfer_accounts, evaluate, listed,
}
use plan_it.Store.Totals.{counted}
use plan_it.Services.Transfers.Moved.{
  change_at, counted_all, fee_change, account_of-id, bump_accounts-transactions,
  insert_transfer-transactions, add_movement_rows-movement_total,
}
use plan_it.Ledger.Transfer.{TransferPreview, TransferFee}
use plan_it.Store.Balance.{signed_amount, movement_total}
use plan_it.Ledger.Policies.{normalize_timestamp, normalize_optional_text, TextField}

pub counted-posted :
    (user account : ℕ) (as_of : Instant) (m : TransactionModel)
    → m.user_id ≡ user
    → m.status ≡ TransactionStatus.posted
    → counted user account as_of m
      ≡ change_at m.account_id m.occurred_at (signed_amount m) account as_of
counted-posted user account as_of m e f = ground arith

+ℤ_cong : {a b c d : ℤ} → a ≡ b → c ≡ d → a +ℤ c ≡ b +ℤ d
+ℤ_cong {a} {b} {c} {d} e f = ap (λ x. x +ℤ c) e ∙ ap (λ y. b +ℤ y) f

-- What the three movements of a transfer do to the balance of an account at a moment.
abbrev pub balance_change :
    TransferPreviewCommand → TransferPreview Text → Instant → ℕ → Instant → ℤ
balance_change command preview at account as_of =
    change_at command.source_account_id at (neg preview.source_amount.amount) account as_of
    +ℤ (change_at command.destination_account_id at preview.destination_amount.amount account as_of
        +ℤ fee_change preview.fee at account as_of)

module _ (digest : List FingerprintPart → Text) (uuid5 : ℕ → Text → ℕ) (now : Instant)
    (user : ℕ) where
  counted_all-fee_rows :
      (command : CommitTransferCommand) (fee : Option TransferFee) (id : Option ℕ)
      (accounts : List AccountModel) (at : Instant) (remark : Option Text)
      {rows : List TransactionModel} (account : ℕ) (as_of : Instant)
      → fee_rows digest uuid5 now user command fee id accounts at remark ≡ ok rows
      → counted_all user account as_of rows ≡ fee_change fee at account as_of
  unfolding fee_rows
  counted_all-fee_rows command none none accounts at remark account as_of h =
      ap (counted_all user account as_of) (sym (ok-injective h))
  counted_all-fee_rows command none (some id) accounts at remark account as_of h = cc
  counted_all-fee_rows command (some fee) none accounts at remark account as_of h = cc
  counted_all-fee_rows command (some fee) (some id) accounts at remark account as_of h =
      let (payer, found, h₁) = >>=-eq-ok (account_of fee.account_id accounts) _ h in
      let row = fee_row digest uuid5 now user command id fee payer at remark in
      ap (counted_all user account as_of) (sym (ok-injective h₁))
      ∙ (+ℤ-zero _
          ∙ (counted-posted user account as_of row refl refl
              ∙ ap (λ k. change_at k at (neg fee.amount.amount) account as_of)
                  (account_of-id fee.account_id accounts found)))

  write_transfer-movement_total :
      (command : CommitTransferCommand) (accounts : List AccountModel)
      (preview : TransferPreview Text) (session : Option ℕ) (s : Store) {t : Store}
      → write_transfer digest uuid5 now user command accounts preview session s ≡ ok t
      → (at : Instant) × (normalize_timestamp command.preview.occurred_at ≡ ok at)
        × ((account : ℕ) (as_of : Instant)
            → movement_total user account as_of t.transactions
              ≡ movement_total user account as_of s.transactions
                +ℤ balance_change command.preview preview at account as_of)
  unfolding write_transfer add_audit_event
  write_transfer-movement_total command accounts preview session s {t} h =
      let (remark, _, h₁) =
        >>=-eq-ok (normalize_optional_text command.note TextField.other_text 2000) _ h in
      let (at, dated, h₂) = >>=-eq-ok (normalize_timestamp command.preview.occurred_at) _ h₁ in
      let (source, from, h₃) =
        >>=-eq-ok (account_of command.preview.source_account_id accounts) _ h₂ in
      let (destination, to, h₄) =
        >>=-eq-ok (account_of command.preview.destination_account_id accounts) _ h₃ in
      let (fees, charged, h₅) =
        >>=-eq-ok
          (fee_rows digest uuid5 now user command preview.fee command.fee_transaction_id accounts at
            remark)
          _ h₄ in
      let first = source_row digest uuid5 now user command preview source destination at remark in
      let second =
        destination_row digest uuid5 now user command preview source destination at remark in
      let (added, written, h₆) = >>=-eq-ok (add_movement_rows (first ∷ (second ∷ fees)) s) _ h₅ in
      let (stored, inserted, h₇) = >>=-eq-ok (insert_transfer _ added) _ h₆ in
      let (bumped, moved, h₈) =
        >>=-eq-ok (bump_accounts (transfer_accounts command.preview) accounts stored) _ h₇ in
      let rows : t.transactions ≡ added.transactions =
        ap (λ u. u.transactions) (sym (ok-injective h₈))
        ∙ (bump_accounts-transactions (transfer_accounts command.preview) accounts stored moved
            ∙ insert_transfer-transactions _ added inserted) in
      (
        at,
        dated,
        λ account as_of.
            ap (movement_total user account as_of) rows
            ∙ (add_movement_rows-movement_total user account as_of (first ∷ (second ∷ fees)) s
                  written
                ∙ ap (λ n. movement_total user account as_of s.transactions +ℤ n)
                    (+ℤ_cong
                      (counted-posted user account as_of first refl refl
                        ∙ ap (λ k. change_at k at (neg preview.source_amount.amount) account as_of)
                            (account_of-id command.preview.source_account_id accounts from))
                      (+ℤ_cong
                        (counted-posted user account as_of second refl refl
                          ∙ ap (λ k. change_at k at preview.destination_amount.amount account as_of)
                              (account_of-id command.preview.destination_account_id accounts to))
                        (counted_all-fee_rows command preview.fee command.fee_transaction_id
                          accounts at remark account as_of charged)))),
      )

  -- A transfer that succeeds commits the preview that was shown, and changes the balance of each
  -- account at each moment by exactly its amounts: from its time on the source loses the source
  -- amount, the destination gains the destination amount and the account of the fee loses the fee.
  pub commit-movement_total :
      (command : CommitTransferCommand) (session : Option ℕ) (s : Store) {t : Store}
      → commit_in_transaction digest uuid5 now user command session s ≡ ok t
      → (accounts : List AccountModel) × (preview : TransferPreview Text) × (at : Instant)
        × (evaluate digest uuid5 now user command.preview s ≡ ok (accounts, preview))
        × (preview.source_fingerprint ≡ command.source_fingerprint)
        × (normalize_timestamp command.preview.occurred_at ≡ ok at)
        × ((account : ℕ) (as_of : Instant)
            → movement_total user account as_of t.transactions
              ≡ movement_total user account as_of s.transactions
                +ℤ balance_change command.preview preview at account as_of)
  unfolding commit_in_transaction
  commit-movement_total command session s h =
      let ((accounts, preview), evaluated, h₁) =
        >>=-eq-ok (evaluate digest uuid5 now user command.preview s) _ h in
      let (shown, h₂) =
        raise_if-eq-ok (not (text_eq preview.source_fingerprint command.source_fingerprint)) _ _
          h₁ in
      let (_, h₃) =
        raise_if-eq-ok
          (has_repeated (
            command.id
            ∷ (command.source_transaction_id
                ∷ (command.destination_transaction_id ∷ listed command.fee_transaction_id))))
          _ _ h₂ in
      let (at, dated, total) =
        write_transfer-movement_total command accounts preview session s h₃ in
      (accounts, preview, at, evaluated, (text_eq_iff _ _).0 (not_false _ shown), dated, total)
    where
      not_false : (b : Bool) → not b ≡ false → b ≡ true
      not_false b h = ground arith
